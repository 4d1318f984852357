-- ===== src/Tests/Limits.antt =====
-- internal/lua/ratelimit.go on concrete inputs.
use goop.Base.{ℕ, ◌≡◌, refl, true, false, List, [], ◌∷◌, arith}
use goop.Base.Int.{pos, negsuc}
use goop.Base.Map.{lookup, insert}
use goop.Lua.RateLimiter.{
  new_rate_limiter, prune_old, times_of, key_of, limit_of, is_full, allow_peer, allow_func,
}
use goop.Lua.RateLimiter.Equivalence.{Call, decisions, ideal_decisions, decisions-ideal}

abbrev call : ℕ → Call
call at = record { peer_id = "p"; function = "f"; func_limit = negsuc 0; at = at }

-- Two calls a minute: the third is refused, the one after the window is not.
abbrev calls : List Call
calls = call 70_000_000_000 ∷ call 71_000_000_000 ∷ call 72_000_000_000 ∷ call 131_000_000_001 ∷ []

third_refused : decisions (new_rate_limiter (pos 2) (pos 9)) calls ≡ true ∷ true ∷ false ∷ true ∷ []
unfolding decisions new_rate_limiter allow_func allow_peer prune_old times_of key_of limit_of
    is_full lookup insert
third_refused = refl

decisions-ideal_example :
    decisions (new_rate_limiter (pos 2) (pos 9)) calls
    ≡ ideal_decisions (new_rate_limiter (pos 2) (pos 9)) [] calls
decisions-ideal_example = decisions-ideal (pos 2) (pos 9) calls (omega arith)
