-- ===== src/Base/Map.antt =====
-- Go's maps keyed by text, as association lists. The order of the entries stands for the order in
-- which `range` visits them, which Go leaves open: a statement about every map is one about every
-- order.
use Prim.Native.Nat.{ℕ, suc, ◌+◌}
use Prim.Native.String.{String}
use mathlib.Core.List.{List, [], ◌∷◌}
use mathlib.Core.Logic.{◌≢◌, inl, inr}
use mathlib.Core.Option.{Option, none, some}
use mathlib.Core.Path.{◌≡◌, refl, sym, subst}
use native.Mathlib.Omega.{arith}
use text.Mathlib.Text.{◌==◌}
use text.Mathlib.TextEquality.{eq_iff}
use goop.Base.Tests.{if◌then◌else◌, Bool-cases}

abbrev pub Map {ℓ} : Type ℓ → Type ℓ
Map V = List (String × V)

module _ {ℓ} {V : Type ℓ} where
  -- `v, ok := m[k]`
  unfoldable pub lookup : String → Map V → Option V
  lookup k [] = none
  lookup k ((j, v) ∷ m) = if j == k then some v else lookup k m

  -- `m[k] = v`: a present key keeps its place.
  unfoldable pub insert : String → V → Map V → Map V
  insert k v [] = (k, v) ∷ []
  insert k v ((j, w) ∷ m) = if j == k then (j, v) ∷ m else (j, w) ∷ insert k v m

  -- `delete(m, k)`
  unfoldable pub erase : String → Map V → Map V
  erase k [] = []
  erase k ((j, v) ∷ m) = let rest = erase k m in if j == k then rest else (j, v) ∷ rest

  abbrev pub size : Map V → ℕ
  size [] = 0
  size (_ ∷ m) = suc (size m)

  -- No key stands twice.
  abbrev pub IsDistinct : Map V → Type ℓ
  IsDistinct [] = Unit
  IsDistinct ((k, v) ∷ m) = (lookup k m ≡ none) × IsDistinct m

  -- Every entry satisfies `P`.
  abbrev pub Each {κ} : (String → V → Type κ) → Map V → Type κ
  Each P [] = Unit
  Each P ((k, v) ∷ m) = P k v × Each P m

  -- The sum of `f` over the values.
  unfoldable pub total : (V → ℕ) → Map V → ℕ
  total f [] = 0
  total f ((_, v) ∷ m) = f v + total f m

  -- The key that was written has the new value, every other key its old one.
  pub lookup-insert :
      (written read : String) (v : V) (m : Map V)
      → lookup read (insert written v m) ≡ (if written == read then some v else lookup read m)
  unfolding lookup insert
  lookup-insert written read v [] = refl
  lookup-insert written read v ((at, w) ∷ m) =
      let rest = lookup-insert written read v m in
      ground (arith, rest, eq_iff written read, eq_iff at written, eq_iff at read)

  pub lookup-insert_self : (k : String) (v : V) (m : Map V) → lookup k (insert k v m) ≡ some v
  lookup-insert_self k v m = ground (arith, eq_iff k k, lookup-insert k k v m)

  pub lookup-insert_ne :
      (k j : String) (v : V) (m : Map V) → j ≢ k → lookup j (insert k v m) ≡ lookup j m
  lookup-insert_ne k j v m h = ground (arith, eq_iff k j, lookup-insert k j v m)

  pub lookup-erase :
      (k j : String) (m : Map V) → lookup j (erase k m) ≡ (if k == j then none else lookup j m)
  unfolding lookup erase
  lookup-erase k j [] = ground arith
  lookup-erase k j ((i, w) ∷ m) =
      ground (arith, eq_iff k j, eq_iff i k, eq_iff i j, lookup-erase k j m)

  pub lookup-erase_self : (k : String) (m : Map V) → lookup k (erase k m) ≡ none
  lookup-erase_self k m = ground (arith, eq_iff k k, lookup-erase k k m)

  pub lookup-erase_ne : (k j : String) (m : Map V) → j ≢ k → lookup j (erase k m) ≡ lookup j m
  lookup-erase_ne k j m h = ground (arith, eq_iff k j, lookup-erase k j m)

  pub insert-IsDistinct :
      (k : String) (v : V) (m : Map V) → IsDistinct m → IsDistinct (insert k v m)
  unfolding insert lookup
  insert-IsDistinct k v [] d = (refl, tt)
  insert-IsDistinct k v ((i, w) ∷ m) d =
      ground (arith, eq_iff i k, eq_iff k i, lookup-insert k i v m, insert-IsDistinct k v m d.1)

  pub erase-IsDistinct : (k : String) (m : Map V) → IsDistinct m → IsDistinct (erase k m)
  unfolding erase
  erase-IsDistinct k [] d = tt
  erase-IsDistinct k ((i, w) ∷ m) d =
      ground (arith, eq_iff k i, lookup-erase k i m, erase-IsDistinct k m d.1)

  pub Each-lookup {κ} :
      (P : String → V → Type κ) (k : String) {v : V} (m : Map V)
      → Each P m
      → lookup k m ≡ some v
      → P k v
  unfolding lookup
  Each-lookup P k [] h e = cc
  Each-lookup P k {v} ((j, w) ∷ m) h e = elim (Bool-cases (j == k)) [
    | inl hit ↦
        let key : j ≡ k = (eq_iff j k).0 hit in
        let val : w ≡ v = ground arith in subst (λ x. P x v) key (subst (P j) val h.0)
    | inr miss ↦ Each-lookup P k m h.1 (ground arith)
  ]

  pub Each-insert {κ} :
      (P : String → V → Type κ) (k : String) (v : V) (m : Map V)
      → Each P m
      → P k v
      → Each P (insert k v m)
  unfolding insert
  Each-insert P k v [] h p = (p, tt)
  Each-insert P k v ((j, w) ∷ m) h p = elim (Bool-cases (j == k)) [
    | inl hit ↦ rw hit (subst (λ x. P x v) (sym ((eq_iff j k).0 hit)) p, h.1)
    | inr miss ↦ rw miss (h.0, Each-insert P k v m h.1 p)
  ]

  pub Each-erase {κ} :
      (P : String → V → Type κ) (k : String) (m : Map V) → Each P m → Each P (erase k m)
  unfolding erase
  Each-erase P k [] h = tt
  Each-erase P k ((j, w) ∷ m) h = elim (Bool-cases (j == k)) [
    | inl hit ↦ rw hit (Each-erase P k m h.1)
    | inr miss ↦ rw miss (h.0, Each-erase P k m h.1)
  ]

  pub total-insert_new :
      (f : V → ℕ) (k : String) (v : V) (m : Map V)
      → lookup k m ≡ none
      → total f (insert k v m) ≡ total f m + f v
  unfolding total insert lookup
  total-insert_new f k v [] h = omega arith
  total-insert_new f k v ((j, w) ∷ m) h = ground (arith, total-insert_new f k v m)

  pub total-insert_old :
      (f : V → ℕ) (k : String) (v w : V) (m : Map V)
      → lookup k m ≡ some w
      → total f (insert k v m) + f w ≡ total f m + f v
  unfolding total insert lookup
  total-insert_old f k v w [] h = cc
  total-insert_old f k v w ((j, u) ∷ m) h = ground (arith, total-insert_old f k v w m)

  erase_absent : (k : String) (m : Map V) → lookup k m ≡ none → erase k m ≡ m
  unfolding erase lookup
  erase_absent k [] h = refl
  erase_absent k ((j, w) ∷ m) h = ground (arith, erase_absent k m)

  pub total-erase :
      (f : V → ℕ) (k : String) (w : V) (m : Map V)
      → IsDistinct m
      → lookup k m ≡ some w
      → total f (erase k m) + f w ≡ total f m
  unfolding total erase lookup
  total-erase f k w [] d h = cc
  total-erase f k w ((j, u) ∷ m) d h =
      ground (arith, eq_iff j k, total-erase f k w m d.1, erase_absent k m)
