-- ===== src/Base/Time.antt =====
-- Go's times, as nanoseconds since the zero time: `IsZero` is the test against 0.
use Prim.Native.Nat.{ℕ, ◌-◌}
use mathlib.Core.Bool.{Bool}
use goop.Base.Tests.{leb, eqb, if◌then◌else◌}

-- A Duration is an int64: a longer one is cut to the largest.
unfoldable pub saturated : ℕ → ℕ
saturated d = if leb d 9_223_372_036_854_775_807 then d else 9_223_372_036_854_775_807

-- `now.Sub(t)` where `t` is not after `now`; a negative duration is below every window, as 0 is.
unfoldable pub elapsed : ℕ → ℕ → ℕ
unfolding saturated
elapsed now t = saturated (now - t)

abbrev pub is_zero : ℕ → Bool
is_zero t = eqb t 0
