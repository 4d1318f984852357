-- ===== src/Util/Slots.antt =====
-- The places of a circular buffer, read in order: what both ring buffers of the program (in
-- internal/util/ringbuf.go and internal/group_types/chat/history.go) copy out.
use native.Mathlib.Nat.{mod-lt, mod-add-mod, mod-eq_of_lt, mod-eq-sub-mod, suc-mod}
use goop.Base.{
  ℕ, zero, suc, ◌+◌, ◌-◌, ◌%◌, ◌≤◌, ◌<◌, List, [], ◌∷◌, ◌++◌, ◌≡◌, ◌≢◌, refl, arith, ap, sym, ◌∙◌,
  Bool-cases, inl, inr, ltb, ltb→lt,
}
use goop.Base.Lists.{length, get_or, set, length-set, get_or-set_ne}

module _ {ℓ} {A : Type ℓ} (z : A) where
  -- `n` elements from the place `at` on, which goes round.
  unfoldable pub slots : List A → ℕ → ℕ → List A
  slots buf at zero = []
  slots buf at (suc n) = get_or buf (at % length buf) z ∷ slots buf (suc at) n

  pub length-slots : (buf : List A) (at n : ℕ) → length (slots buf at n) ≡ n
  unfolding slots
  length-slots buf at zero = refl
  length-slots buf at (suc n) = ap suc (length-slots buf (suc at) n)

  pub slots-suc :
      (buf : List A) (at n : ℕ)
      → slots buf at (suc n) ≡ slots buf at n ++ get_or buf ((at + n) % length buf) z ∷ []
  unfolding slots
  slots-suc buf at zero = let same : at + 0 ≡ at = omega arith in rw same
  slots-suc buf at (suc n) =
      let same : suc at + n ≡ at + suc n = omega arith in
      ap (◌∷◌ (get_or buf (at % length buf) z)) (slots-suc buf (suc at) n ∙ rw same)

  -- Only the place modulo the length counts.
  pub slots-mod :
      (buf : List A) (a b n : ℕ) → a % length buf ≡ b % length buf → slots buf a n ≡ slots buf b n
  unfolding slots
  slots-mod buf a b zero e = refl
  slots-mod buf a b (suc n) e =
      let later : suc a % length buf ≡ suc b % length buf =
        suc-mod a (length buf) ∙ ap (λ x. suc x % length buf) e ∙ sym (suc-mod b (length buf)) in
      rw e (ap (◌∷◌ (get_or buf (b % length buf) z)) (slots-mod buf (suc a) (suc b) n later))

  -- A write shows only where the walk comes by.
  pub slots-set_ne :
      (buf : List A) (k : ℕ) (v : A) (at n : ℕ)
      → ((i : ℕ) → i < n → (at + i) % length buf ≢ k)
      → slots (set buf k v) at n ≡ slots buf at n
  unfolding slots
  slots-set_ne buf k v at zero h = refl
  slots-set_ne buf k v at (suc n) h =
      let here : k ≢ at % length buf =
        λ e. h 0 (omega arith) (ap (λ x. x % length buf) (omega arith) ∙ sym e) in
      let rest =
        slots-set_ne buf k v (suc at) n
          (λ i l e. h (suc i) (omega arith) (ap (λ x. x % length buf) (omega arith) ∙ e)) in
      rw (length-set buf k v, get_or-set_ne buf k (at % length buf) v z here, rest)

-- Numbers less than `k` apart differ modulo `k`.
pub mod_ne : (k a b : ℕ) → a < b → b < a + k → a % k ≢ b % k
mod_ne k a b h l e =
    let r = a % k in
    let d = b - a in
    let small : r < k = mod-lt a (omega arith) in
    let split : b % k ≡ (r + d) % k = ap (λ x. x % k) (omega arith) ∙ sym (mod-add-mod a k d) in
    elim (Bool-cases (ltb (r + d) k)) [
      | inl low ↦
          let less : r + d < k = ltb→lt (r + d) k low in omega (arith, split, mod-eq_of_lt less)
      | inr high ↦
          let more : k ≤ r + d = ground arith in
          let less : r + d - k < k = omega arith in
          omega (arith, split, mod-eq-sub-mod more, mod-eq_of_lt less)
    ]
