-- ===== src/Cluster/Dispatcher/Picking.antt =====
-- Which worker pickWorkerForType of internal/group_types/cluster/dispatcher.go takes.
use goop.Base.{
  ℕ, zero, suc, ◌%◌, ◌<◌, true, false, String, List, [], ◌∷◌, none, some, ◌≡◌, ◌≢◌, ◌⊎◌, inl, inr,
  refl, arith, eq_iff, ◌==◌, Result, ok, err, Bool-cases, sym, ◌∙◌, subst,
}
use native.Mathlib.Nat.{mod-lt}
use goop.Base.Int.{pos, incr}
use goop.Base.Lists.{length, get_elem?, get_elem?-some}
use goop.Base.Map.{Map, lookup, IsDistinct}
use goop.Cluster.Types.{WorkerInfo}
use goop.Cluster.Dispatcher.{
  Dispatcher, Fault, is_eligible, is_empty, eligible_ids, robin_elem, pick_worker_for_type,
}

abbrev pub Elem : String → List String → Type 0
Elem x [] = ⊥
Elem x (y ∷ ys) = (y ≡ x) ⊎ Elem x ys

Elem-of_index : (xs : List String) (i : ℕ) (x : String) → get_elem? xs i ≡ some x → Elem x xs
Elem-of_index [] i x e = absurd (ground arith)
Elem-of_index (y ∷ ys) zero x e = inl (ground arith)
Elem-of_index (y ∷ ys) (suc i) x e = inr (Elem-of_index ys i x e)

eligible_ids-absent :
    (t : String) (m : Map WorkerInfo) (x : String)
    → lookup x m ≡ none
    → Elem x (eligible_ids t m)
    → ⊥
unfolding eligible_ids lookup
eligible_ids-absent t [] x e h = h
eligible_ids-absent t ((id, w) ∷ m) x e h = ground (arith, eq_iff id x, eligible_ids-absent t m x)

eligible_ids-later :
    (t id x : String) (w : WorkerInfo) (m : Map WorkerInfo)
    → (id ≢ x) ⊎ (is_eligible t w ≡ false)
    → Elem x (eligible_ids t ((id, w) ∷ m))
    → Elem x (eligible_ids t m)
unfolding eligible_ids
eligible_ids-later t id x w m h e = ground arith

-- The ids are those of the eligible workers.
eligible_ids_sound :
    (t : String) (m : Map WorkerInfo) (x : String)
    → IsDistinct m
    → Elem x (eligible_ids t m)
    → (w : WorkerInfo) × (lookup x m ≡ some w) × (is_eligible t w ≡ true)
unfolding lookup
eligible_ids_sound t [] x d h = absurd (unfold eligible_ids in h)
eligible_ids_sound t ((id, w) ∷ m) x d h = elim (Bool-cases (id == x)) [
  | inl hit ↦ elim (Bool-cases (is_eligible t w)) [
    | inl p ↦ (w, rw hit, p)
    | inr p ↦
        let gone : lookup x m ≡ none = subst (λ k. lookup k m ≡ none) ((eq_iff id x).0 hit) d.0 in
        absurd (eligible_ids-absent t m x gone (eligible_ids-later t id x w m (inr p) h))
  ]
  | inr miss ↦
      let other : id ≢ x = λ e. ground (arith, eq_iff id x) in
      let (v, e, p) = eligible_ids_sound t m x d.1 (eligible_ids-later t id x w m (inl other) h) in
      (v, rw miss e, p)
]

-- No id means no eligible worker.
eligible_ids_complete :
    (t : String) (m : Map WorkerInfo)
    → is_empty (eligible_ids t m) ≡ true
    → (id : String) (w : WorkerInfo) → lookup id m ≡ some w
    → is_eligible t w ≡ false
unfolding eligible_ids lookup is_empty
eligible_ids_complete t [] h id w e = absurd (ground arith)
eligible_ids_complete t ((j, v) ∷ m) h id w e =
    let here : is_eligible t v ≡ false = ground arith in
    let rest : is_empty (eligible_ids t m) ≡ true = ground arith in
    ground (arith, eligible_ids_complete t m rest id w)

-- The workers in the order of one `range`: the same, each once.
pub record IsOrder (visited workers : Map WorkerInfo) : Type 0 where
  pub once : IsDistinct visited
  pub same : (id : String) → lookup id visited ≡ lookup id workers

-- What pickWorkerForType may answer.
abbrev pub IsPick : Dispatcher → String → Result Fault (String × Dispatcher) → Type 0
IsPick d t (err f) = ⊥
IsPick d t (ok (x, d')) =
    ((x ≡ "")
      × (d' ≡ d)
      × ((id : String) (w : WorkerInfo) → lookup id d.workers ≡ some w → is_eligible t w ≡ false))
    ⊎ ((w : WorkerInfo) × (lookup x d.workers ≡ some w)
        × (is_eligible t w ≡ true)
        × (d' ≡ record d { robin = incr d.robin }))

nonempty : (xs : List String) (i : ℕ) → i < length xs → is_empty xs ≡ false
unfolding is_empty
nonempty [] i h = elim h [ ]
nonempty (x ∷ xs) i h = refl

length-pos : (xs : List String) → is_empty xs ≡ false → 0 < length xs
unfolding is_empty
length-pos [] e = absurd (ground arith)
length-pos (x ∷ xs) e = omega arith

-- The place that the counter selects among `k` candidates.
pub robin_elem-pos :
    (n : ℕ) (xs : List String)
    → is_empty xs ≡ false
    → (x : String) × (robin_elem (pos n) xs ≡ some x) × Elem x xs
unfolding robin_elem
robin_elem-pos n xs e =
    let small : n % length xs < length xs = mod-lt n (length-pos xs e) in
    let (x, found) = get_elem?-some xs (n % length xs) small in
    (x, found, Elem-of_index xs (n % length xs) x found)

-- While its counter has not wrapped, pickWorkerForType does not panic; it names an eligible worker
-- (verified, not paused, below its capacity, and taking jobs of the type) and moves the counter on,
-- or returns the empty id, if and because no worker is eligible.
pub pick_worker_for_type-IsPick :
    (visited : Map WorkerInfo) (d : Dispatcher) (t : String) (n : ℕ)
    → IsOrder visited d.workers
    → d.robin ≡ pos n
    → IsPick d t (pick_worker_for_type visited d t)
unfolding pick_worker_for_type
pick_worker_for_type-IsPick visited d t n v r =
    elim (Bool-cases (is_empty (eligible_ids t visited))) [
      | inl e ↦ rw e (
          inl
            (refl, refl, λ id w known. eligible_ids_complete t visited e id w (v.same id ∙ known)))
      | inr e ↦
          let (x, found, at) = robin_elem-pos n (eligible_ids t visited) e in
          let (w, known, able) = eligible_ids_sound t visited x v.once at in
          let picked : robin_elem d.robin (eligible_ids t visited) ≡ some x = rw r found in
          rw (e, picked) (inr (w, sym (v.same x) ∙ known, able, refl))
    ]
