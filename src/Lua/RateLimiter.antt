-- ===== src/Lua/RateLimiter.antt =====
-- internal/lua/ratelimit.go: a sliding window over the calls of each peer and function, and over all
-- calls. The clock is an argument of each call.
pub mod History
pub mod Equivalence
use Prim.Native.String.{◌++◌ as str_append}
use goop.Base.{
  ℕ, ◌-◌, Bool, true, false, String, List, [], ◌∷◌, ◌++◌, Option, none, some, if◌then◌else◌, ltb,
}
use goop.Base.Int.{ℤ, pos, negsuc, leb_ℤ, ltb_ℤ, eqb_ℤ}
use goop.Base.Lists.{length}
use goop.Base.Map.{Map, lookup, insert}

pub record RateLimiter : Type 0 where
  pub per_peer : Map (List ℕ)
  pub global : List ℕ
  pub peer_max : ℤ
  pub global_max : ℤ
  pub window : ℕ

-- RateLimitWindow is a minute.
unfoldable pub new_rate_limiter : ℤ → ℤ → RateLimiter
new_rate_limiter per_peer_per_min global_per_min = record {
  per_peer = [];
  global = [];
  peer_max = per_peer_per_min;
  global_max = global_per_min;
  window = 60_000_000_000;
}

-- Drops the times before the cutoff at the front.
unfoldable pub prune_old : List ℕ → ℕ → List ℕ
prune_old [] cutoff = []
prune_old (t ∷ ts) cutoff = let rest = prune_old ts cutoff in if ltb t cutoff then rest else t ∷ ts

-- `r.perPeer[key]`: a missing key gives nil.
unfoldable pub times_of : String → Map (List ℕ) → List ℕ
times_of key m = elim (lookup key m) [ none ↦ [] | some ts ↦ ts ]

unfoldable pub key_of : String → String → String
key_of peer_id function = str_append peer_id (str_append ":" function)

unfoldable pub limit_of : ℤ → ℤ → ℤ
limit_of peer_max func_limit = if ltb_ℤ (pos 0) func_limit then func_limit else peer_max

unfoldable pub is_full : List ℕ → ℤ → Bool
is_full ts limit = leb_ℤ limit (pos (length ts))

-- From the limit of the peer and function on.
unfoldable pub allow_peer : RateLimiter → String → ℤ → ℕ → RateLimiter × Bool
allow_peer r key limit now =
    let mine = prune_old (times_of key r.per_peer) (now - r.window) in
    if is_full mine limit then (record r { per_peer = insert key mine r.per_peer }, false) else (
      record r {
        global = r.global ++ now ∷ [];
        per_peer = insert key (mine ++ now ∷ []) r.per_peer;
      },
      true,
    )

-- A cutoff before Go's zero time drops nothing, as 0 does.
unfoldable pub allow_func : RateLimiter → String → String → ℤ → ℕ → RateLimiter × Bool
allow_func r peer_id function func_limit now =
    let r' = record r { global = prune_old r.global (now - r.window) } in
    if eqb_ℤ func_limit (pos 0)
    then (r, true)
    else if is_full r'.global r.global_max
    then (r', false)
    else allow_peer r' (key_of peer_id function) (limit_of r.peer_max func_limit) now
