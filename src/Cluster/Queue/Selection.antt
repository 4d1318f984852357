-- ===== src/Cluster/Queue/Selection.antt =====
-- Which job Queue.NextPending of internal/group_types/cluster/queue.go picks.
use goop.Base.{
  String, true, false, [], ◌∷◌, Option, none, some, ◌≡◌, ◌⊎◌, inl, inr, refl, arith, Bool-cases,
  eq_iff,
}
use goop.Base.Int.{◌≤ℤ◌, ltb_ℤ}
use goop.Base.Map.{Map, lookup, Each, IsDistinct, Each-lookup}
use goop.Cluster.Types.{Job, JobState, is_pending}
use goop.Cluster.Queue.{Queue, best_pending, next_pending}
use goop.Cluster.Queue.Calls.{IsValid}

abbrev Member : JobState → Map JobState → Type 0
Member b [] = ⊥
Member b ((_, js) ∷ m) = (js ≡ b) ⊎ Member b m

abbrev Before : Option JobState → JobState → Type 0
Before none b = Unit
Before (some a) b = a.job.priority ≤ℤ b.job.priority

abbrev AtMost : JobState → Map JobState → Type 0
AtMost b = Each (λ _ js. is_pending js.status ≡ true → js.job.priority ≤ℤ b.job.priority)

abbrev NonePending : Map JobState → Type 0
NonePending = Each (λ _ js. is_pending js.status ≡ false)

-- The result `r` of the loop that starts with `best`.
abbrev Selects : Map JobState → Option JobState → Option JobState → Type 0
Selects m best none = (best ≡ none) × NonePending m
Selects m best (some b) =
    Before best b × AtMost b m × ((best ≡ some b) ⊎ (Member b m × (is_pending b.status ≡ true)))

abbrev Origin : Map JobState → Option JobState → JobState → Type 0
Origin m best b = (best ≡ some b) ⊎ (Member b m × (is_pending b.status ≡ true))

module _ (id : String) (js : JobState) (m : Map JobState) where
  Origin-later :
      (best : Option JobState) (b : JobState) → Origin m best b → Origin ((id, js) ∷ m) best b
  Origin-later best b (inl e) = inl e
  Origin-later best b (inr o) = inr (inr o.0, o.1)

  Origin-here :
      (best : Option JobState) (b : JobState)
      → is_pending js.status ≡ true
      → Origin m (some js) b
      → Origin ((id, js) ∷ m) best b
  Origin-here best b p (inl e) = inr (inl (ground arith), ground arith)
  Origin-here best b p (inr o) = inr (inr o.0, o.1)

  -- The job is not pending.
  Selects-skip :
      (best r : Option JobState)
      → is_pending js.status ≡ false
      → Selects m best r
      → Selects ((id, js) ∷ m) best r
  Selects-skip best none p s = (s.0, (p, s.1))
  Selects-skip best (some b) p s = (s.0, (λ q. cc, s.1), Origin-later best b s.2)

  -- The best so far is at least as good.
  Selects-keep :
      (a : JobState) (r : Option JobState)
      → js.job.priority ≤ℤ a.job.priority
      → Selects m (some a) r
      → Selects ((id, js) ∷ m) (some a) r
  Selects-keep a none h s = absurd (ground arith)
  Selects-keep a (some b) h s = (s.0, (λ _. omega arith, s.1), Origin-later (some a) b s.2)

  -- The job becomes the best so far.
  Selects-take :
      (best r : Option JobState)
      → is_pending js.status ≡ true
      → Before best js
      → Selects m (some js) r
      → Selects ((id, js) ∷ m) best r
  Selects-take best none p h s = absurd (ground arith)
  Selects-take none (some b) p h s = (tt, (λ _. s.0, s.1), Origin-here none b p s.2)
  Selects-take (some a) (some b) p h s =
      (omega arith, (λ _. s.0, s.1), Origin-here (some a) b p s.2)

best_pending-Selects :
    (m : Map JobState) (best : Option JobState) → Selects m best (best_pending m best)
unfolding best_pending
best_pending-Selects [] none = (refl, tt)
best_pending-Selects [] (some a) = (omega arith, tt, inl refl)
best_pending-Selects ((id, js) ∷ m) none = elim (Bool-cases (is_pending js.status)) [
  | inl p ↦ rw p (Selects-take id js m none _ p tt (best_pending-Selects m (some js)))
  | inr p ↦ rw p (Selects-skip id js m none _ p (best_pending-Selects m none))
]
best_pending-Selects ((id, js) ∷ m) (some a) = elim (Bool-cases (is_pending js.status)) [
  | inl p ↦ elim (Bool-cases (ltb_ℤ a.job.priority js.job.priority)) [
    | inl more ↦
        rw (p, more)
          (Selects-take id js m (some a) _ p (ground arith) (best_pending-Selects m (some js)))
    | inr less ↦
        rw (p, less) (Selects-keep id js m a _ (ground arith) (best_pending-Selects m (some a)))
  ]
  | inr p ↦ rw p (Selects-skip id js m (some a) _ p (best_pending-Selects m (some a)))
]

-- In a map without double keys that has each job under its id, a member is what its id finds.
lookup-Member :
    (m : Map JobState) (b : JobState)
    → IsDistinct m
    → Each (λ id js. js.job.id ≡ id) m
    → Member b m
    → lookup b.job.id m ≡ some b
unfolding lookup
lookup-Member [] b d k h = absurd h
lookup-Member ((id, js) ∷ m) b d k (inl e) = ground (arith, eq_iff id b.job.id)
lookup-Member ((id, js) ∷ m) b d k (inr h) =
    ground (arith, eq_iff id b.job.id, lookup-Member m b d.1 k.1 h)

-- A map holds no better pending job than `job`, or none at all.
abbrev pub IsChoice : Queue → Option Job → Type 0
IsChoice q none =
    (id : String) (js : JobState) → lookup id q.jobs ≡ some js → is_pending js.status ≡ false
IsChoice q (some job) =
    ((js : JobState) × (lookup job.id q.jobs ≡ some js)
      × (js.job ≡ job)
      × (is_pending js.status ≡ true))
    × ((id : String) (js : JobState)
        → lookup id q.jobs ≡ some js
        → is_pending js.status ≡ true
        → js.job.priority ≤ℤ job.priority)

IsChoice-of :
    (q : Queue)
    → IsValid q
    → (r : Option JobState) → Selects q.jobs none r
    → IsChoice q (elim r [ none ↦ none | some js ↦ some js.job ])
IsChoice-of q v none s =
    λ id js e. Each-lookup (λ _ js. is_pending js.status ≡ false) id q.jobs s.1 e
IsChoice-of q v (some b) s = elim s.2 [
  | inl e ↦ absurd (ground arith)
  | inr (o, p) ↦ (
    (b, lookup-Member q.jobs b v.distinct v.keyed o, refl, p),
    λ id js e.
        Each-lookup (λ _ js. is_pending js.status ≡ true → js.job.priority ≤ℤ b.job.priority) id
          q.jobs s.1 e,
  )
]

-- NextPending returns a pending job of the queue, as it is stored under its id, than which no pending
-- job has a higher priority; it returns nil exactly when no job is pending.
pub next_pending-IsChoice : (q : Queue) → IsValid q → IsChoice q (next_pending q)
unfolding next_pending
next_pending-IsChoice q v = IsChoice-of q v _ (best_pending-Selects q.jobs none)
