-- ===== src/Lua/RateLimiter/Equivalence.antt =====
-- AllowFunc of internal/lua/ratelimit.go against a limiter that keeps every admitted call.
use goop.Base.{
  ℕ, ◌-◌, ◌≤◌, Bool, true, false, String, List, [], ◌∷◌, ◌++◌, ◌==◌, ◌≡◌, ◌≢◌, refl, arith, eq_iff,
  Bool-cases, inl, inr, ap₂, sym, ◌∙◌, subst,
}
use goop.Base.Int.{ℤ, pos, eqb_ℤ}
use goop.Base.Map.{Map, lookup, insert, lookup-insert_self, lookup-insert_ne}
use goop.Lua.RateLimiter.{
  RateLimiter, new_rate_limiter, prune_old, times_of, key_of, limit_of, is_full, allow_peer,
  allow_func,
}
use goop.Lua.RateLimiter.History.{
  History, since, all_times, times_at, ideal, Keeps, prune_old-eq, prune_old-Keeps, Keeps-mono,
  append-Keeps, Keeps-nil, all_times-append, times_at-append,
}

-- The state of the limiter after the admitted calls `h`, the last call having been made at `last`.
pub record Tracks (r : RateLimiter) (h : History) (last : ℕ) : Type 0 where
  pub global : Keeps last (last - r.window) r.global (all_times h)
  pub peers :
      (key : String) → Keeps last (last - r.window) (times_of key r.per_peer) (times_at key h)

times_of-insert_self :
    (key : String) (ts : List ℕ) (m : Map (List ℕ)) → times_of key (insert key ts m) ≡ ts
unfolding times_of
times_of-insert_self key ts m = rw (lookup-insert_self key ts m, times_of)

times_of-insert_ne :
    (key j : String) (ts : List ℕ) (m : Map (List ℕ))
    → j ≢ key
    → times_of j (insert key ts m) ≡ times_of j m
unfolding times_of
times_of-insert_ne key j ts m h = rw (lookup-insert_ne key j ts m h, times_of)

module _ (r : RateLimiter) (h : History) (last now : ℕ) (t : Tracks r h last) (later : last ≤ now)
    (key : String) where
  abbrev cutoff : ℕ
  cutoff = now - r.window

  abbrev pruned : RateLimiter
  pruned = record r { global = prune_old r.global cutoff }

  pruned-Tracks : Tracks pruned h now
  pruned-Tracks = record {
    global = prune_old-Keeps t.global now (now - r.window) later (omega arith);
    peers = λ j. Keeps-mono (t.peers j) now (now - r.window) later (omega arith);
  }

  abbrev mine : List ℕ
  mine = prune_old (times_of key r.per_peer) cutoff

  -- The key's times replaced by `ts`, which are what is kept of `hs`.
  replaced :
      (ts g : List ℕ) (h' : History)
      → Keeps now (now - r.window) ts (times_at key h')
      → Keeps now (now - r.window) g (all_times h')
      → ((j : String) → j ≢ key → times_at j h' ≡ times_at j h)
      → Tracks (record r { global = g; per_peer = insert key ts r.per_peer }) h' now
  replaced ts g h' k kg other = record {
    global = kg;
    peers = λ j. elim (Bool-cases (j == key)) [
      | inl hit ↦ rw ((eq_iff j key).0 hit, times_of-insert_self key ts r.per_peer) k
      | inr miss ↦
          let apart : j ≢ key = λ e. ground (arith, eq_iff j key) in
          rw (times_of-insert_ne key j ts r.per_peer apart, other j apart)
            (Keeps-mono (t.peers j) now (now - r.window) later (omega arith))
    ];
  }

  refused-Tracks : Tracks (record pruned { per_peer = insert key mine r.per_peer }) h now
  refused-Tracks =
      replaced (prune_old (times_of key r.per_peer) (now - r.window)) _ h
        (prune_old-Keeps (t.peers key) now (now - r.window) later (omega arith))
        (prune_old-Keeps t.global now (now - r.window) later (omega arith)) (λ j _. refl)

  admitted-Tracks :
      Tracks
        (record pruned {
          global = prune_old r.global cutoff ++ now ∷ [];
          per_peer = insert key (mine ++ now ∷ []) r.per_peer;
        })
        (h ++ (key, now) ∷ [])
        now
  admitted-Tracks =
      replaced (prune_old (times_of key r.per_peer) (now - r.window) ++ now ∷ []) _
        (h ++ (key, now) ∷ [])
        (subst (Keeps now (now - r.window) _)
          (sym (times_at-append key key now h ∙ ground (arith, eq_iff key key)))
          (append-Keeps (prune_old-Keeps (t.peers key) now (now - r.window) later (omega arith)) now
            (omega arith)))
        (subst (Keeps now (now - r.window) _) (sym (all_times-append key now h)) (
          append-Keeps (prune_old-Keeps t.global now (now - r.window) later (omega arith)) now
            (omega arith)))
        (λ j apart. ground (arith, times_at-append j key now h, eq_iff key j))

-- The limits and the window are those of `r₀`.
pub record IsTuned (r₀ r : RateLimiter) : Type 0 where
  pub peer_max : r.peer_max ≡ r₀.peer_max
  pub global_max : r.global_max ≡ r₀.global_max
  pub window : r.window ≡ r₀.window

-- The two limiters decide alike and stay in step.
record Matches (r₀ : RateLimiter) (res : RateLimiter × Bool) (want : History × Bool) (now : ℕ)
    : Type 0 where
  decision : res.1 ≡ want.1
  tracks : Tracks res.0 want.0 now
  tuned : IsTuned r₀ res.0

allow_func-Matches :
    (r : RateLimiter) (h : History) (last now : ℕ) (peer_id function : String) (func_limit : ℤ)
    → Tracks r h last
    → last ≤ now
    → Matches r
        (allow_func r peer_id function func_limit now)
        (ideal r h peer_id function func_limit now)
        now
unfolding allow_func allow_peer ideal
allow_func-Matches r h last now peer_id function func_limit t later =
    let key = key_of peer_id function in
    let c = now - r.window in
    let global_eq : prune_old r.global c ≡ since c (all_times h) =
      prune_old-eq t.global c (omega arith) in
    let mine_eq : prune_old (times_of key r.per_peer) c ≡ since c (times_at key h) =
      prune_old-eq (t.peers key) c (omega arith) in
    elim (Bool-cases (eqb_ℤ func_limit (pos 0))) [
      | inl free ↦ rw free (record {
        decision = refl;
        tracks = record {
          global = Keeps-mono t.global now c later (omega arith);
          peers = λ j. Keeps-mono (t.peers j) now c later (omega arith);
        };
        tuned = record { peer_max = refl; global_max = refl; window = refl };
      })
      | inr limited ↦ elim (Bool-cases (is_full (since c (all_times h)) r.global_max)) [
        | inl full ↦
            let full' : is_full (prune_old r.global c) r.global_max ≡ true = rw global_eq full in
            rw (limited, full', full)
              (record {
                decision = refl;
                tracks = pruned-Tracks r h last now t later key;
                tuned = record { peer_max = refl; global_max = refl; window = refl };
              })
        | inr room ↦
            let room' : is_full (prune_old r.global c) r.global_max ≡ false = rw global_eq room in
            let limit = limit_of r.peer_max func_limit in
            elim (Bool-cases (is_full (since c (times_at key h)) limit)) [
              | inl full ↦
                  let full' : is_full (prune_old (times_of key r.per_peer) c) limit ≡ true =
                    rw mine_eq full in
                  rw (limited, room', room, full', full)
                    (record {
                      decision = refl;
                      tracks = refused-Tracks r h last now t later key;
                      tuned = record { peer_max = refl; global_max = refl; window = refl };
                    })
              | inr free ↦
                  let free' : is_full (prune_old (times_of key r.per_peer) c) limit ≡ false =
                    rw mine_eq free in
                  rw (limited, room', room, free', free)
                    (record {
                      decision = refl;
                      tracks = admitted-Tracks r h last now t later key;
                      tuned = record { peer_max = refl; global_max = refl; window = refl };
                    })
            ]
      ]
    ]

pub record Call : Type 0 where
  pub peer_id : String
  pub function : String
  pub func_limit : ℤ
  pub at : ℕ

unfoldable pub decisions : RateLimiter → List Call → List Bool
decisions r [] = []
decisions r (c ∷ cs) =
    let (r', ok) = allow_func r c.peer_id c.function c.func_limit c.at in ok ∷ decisions r' cs

unfoldable pub ideal_decisions : RateLimiter → History → List Call → List Bool
ideal_decisions r h [] = []
ideal_decisions r h (c ∷ cs) =
    let (h', ok) = ideal r h c.peer_id c.function c.func_limit c.at in ok ∷ ideal_decisions r h' cs

-- The clock does not go back.
abbrev pub InOrder : ℕ → List Call → Type 0
InOrder last [] = Unit
InOrder last (c ∷ cs) = (last ≤ c.at) × InOrder c.at cs

ideal-tuned :
    (r₀ r : RateLimiter) (h : History) (p f : String) (l : ℤ) (now : ℕ)
    → IsTuned r₀ r
    → ideal r h p f l now ≡ ideal r₀ h p f l now
unfolding ideal
ideal-tuned r₀ r h p f l now t = ground (arith, t.peer_max, t.global_max, t.window)

IsTuned-trans : (r₀ r r' : RateLimiter) → IsTuned r₀ r → IsTuned r r' → IsTuned r₀ r'
IsTuned-trans r₀ r r' s t = record {
  peer_max = t.peer_max ∙ s.peer_max;
  global_max = t.global_max ∙ s.global_max;
  window = t.window ∙ s.window;
}

decisions-Tracks :
    (cs : List Call) (r₀ r : RateLimiter) (h : History) (last : ℕ)
    → Tracks r h last
    → IsTuned r₀ r
    → InOrder last cs
    → decisions r cs ≡ ideal_decisions r₀ h cs
unfolding decisions ideal_decisions
decisions-Tracks [] r₀ r h last t s o = refl
decisions-Tracks (c ∷ cs) r₀ r h last t s o =
    let res = allow_func r c.peer_id c.function c.func_limit c.at in
    let m = allow_func-Matches r h last c.at c.peer_id c.function c.func_limit t o.0 in
    let same = ideal-tuned r₀ r h c.peer_id c.function c.func_limit c.at s in
    rw (← same) (
      ap₂ (◌∷◌) m.decision
        (decisions-Tracks cs r₀ res.0 _ c.at m.tracks (IsTuned-trans r₀ r res.0 s m.tuned) o.1))

-- Whatever limits a new limiter has, and whatever calls are made in the order of time, it decides as
-- the ideal limiter does: a call is admitted if its function is not limited, or if fewer than the
-- global limit of all limited calls, and fewer than its own limit of the calls of its key, were
-- admitted in the minute before it.
pub decisions-ideal :
    (per_peer global : ℤ) (cs : List Call)
    → InOrder 0 cs
    → let r = new_rate_limiter per_peer global in decisions r cs ≡ ideal_decisions r [] cs
unfolding new_rate_limiter all_times times_of times_at lookup
decisions-ideal per_peer global cs o =
    decisions-Tracks cs (new_rate_limiter per_peer global) (new_rate_limiter per_peer global) [] 0
      (record { global = Keeps-nil 0 0; peers = λ key. Keeps-nil 0 0 })
      (record { peer_max = refl; global_max = refl; window = refl }) o
