-- ===== src/Base/Int.antt =====
-- Go's `int` (64 bits on the platforms that the program is built for): signed integers over the
-- native numbers, with the wrap-around of `++` and `--` written out.
use Prim.Native.Nat.{ℕ, suc, ◌+◌, ◌-◌, ◌≤◌, ◌<◌, ◌^◌}
use mathlib.Core.Bool.{Bool}
use mathlib.Core.Path.{◌≡◌}
use native.Mathlib.Omega.{arith}
use goop.Base.Tests.{ltb, leb, eqb, if◌then◌else◌}

-- `negsuc n` is -(n + 1).
pub data ℤ : Type 0 where
  pos : ℕ → ℤ
  negsuc : ℕ → ℤ

abbrev pub pos_part : ℤ → ℕ
pos_part (pos n) = n
pos_part (negsuc n) = 0

abbrev pub neg_part : ℤ → ℕ
neg_part (pos n) = 0
neg_part (negsuc n) = suc n

infix 50 ◌≤ℤ◌ ◌<ℤ◌
abbrev pub ◌≤ℤ◌ : ℤ → ℤ → Type 0
a ≤ℤ b = pos_part a + neg_part b ≤ pos_part b + neg_part a

abbrev pub ◌<ℤ◌ : ℤ → ℤ → Type 0
a <ℤ b = pos_part a + neg_part b < pos_part b + neg_part a

abbrev pub ltb_ℤ : ℤ → ℤ → Bool
ltb_ℤ a b = ltb (pos_part a + neg_part b) (pos_part b + neg_part a)

abbrev pub leb_ℤ : ℤ → ℤ → Bool
leb_ℤ a b = leb (pos_part a + neg_part b) (pos_part b + neg_part a)

-- The successor and the predecessor, as integers.
unfoldable pub suc_ℤ : ℤ → ℤ
suc_ℤ (pos n) = pos (suc n)
suc_ℤ (negsuc n) = if eqb n 0 then pos 0 else negsuc (n - 1)

unfoldable pub pred_ℤ : ℤ → ℤ
pred_ℤ (pos n) = if eqb n 0 then negsuc 0 else pos (n - 1)
pred_ℤ (negsuc n) = negsuc (suc n)

-- The largest and the smallest `int`. They stay shut where a proof needs only their order.
unfoldable pub int_max : ℤ
int_max = pos (2 ^ 63 - 1)

unfoldable pub int_min : ℤ
int_min = negsuc (2 ^ 63 - 1)

abbrev pub eqb_ℤ : ℤ → ℤ → Bool
eqb_ℤ a b = eqb (pos_part a + neg_part b) (pos_part b + neg_part a)

-- `a++` and `a--`.
unfoldable pub incr : ℤ → ℤ
incr a = if eqb_ℤ a int_max then int_min else suc_ℤ a

unfoldable pub decr : ℤ → ℤ
decr a = if eqb_ℤ a int_min then int_max else pred_ℤ a

pub suc_ℤ_parts : (a : ℤ) → pos_part (suc_ℤ a) + neg_part a ≡ neg_part (suc_ℤ a) + pos_part a + 1
unfolding suc_ℤ
suc_ℤ_parts (pos n) = omega arith
suc_ℤ_parts (negsuc n) = ground arith

pub pred_ℤ_parts : (a : ℤ) → pos_part (pred_ℤ a) + neg_part a + 1 ≡ neg_part (pred_ℤ a) + pos_part a
unfolding pred_ℤ
pred_ℤ_parts (pos n) = ground arith
pred_ℤ_parts (negsuc n) = omega arith

-- Below the largest value `++` adds one.
pub incr_parts :
    (a : ℤ) → a <ℤ int_max → pos_part (incr a) + neg_part a ≡ neg_part (incr a) + pos_part a + 1
unfolding incr
incr_parts a h = ground (arith, suc_ℤ_parts a)

pub decr_parts :
    (a : ℤ) → int_min <ℤ a → pos_part (decr a) + neg_part a + 1 ≡ neg_part (decr a) + pos_part a
unfolding decr
decr_parts a h = ground (arith, pred_ℤ_parts a)

pub decr-incr : (a : ℤ) → a <ℤ int_max → int_min ≤ℤ a → decr (incr a) ≡ a
unfolding decr incr suc_ℤ pred_ℤ
decr-incr (pos n) h l = ground arith
decr-incr (negsuc n) h l = ground arith

pub eq_of_parts : (a b : ℤ) → pos_part a + neg_part b ≡ pos_part b + neg_part a → a ≡ b
eq_of_parts a b h = ground arith

pub incr-pos : (n : ℕ) → n < 2 ^ 63 - 1 → incr (pos n) ≡ pos (suc n)
unfolding incr int_max suc_ℤ
incr-pos n h = ground arith
