-- ===== src/Cluster/Manager/Ticks.antt =====
-- The dispatcher's ticks on a manager: internal/group_types/cluster/dispatcher.go under manager.go.
use goop.Base.{
  String, Option, none, some, true, ok, ◌≡◌, ◌==◌, refl, sym, subst, ap₂, ℕ, ◌∙◌, Bool-cases,
  Option-cases, inl, inr,
}
use goop.Base.Int.{pos, incr}
use goop.Base.Map.{Map}
use goop.Cluster.Types.{WorkerInfo}
use goop.Cluster.Queue.{Queue, next_pending}
use goop.Cluster.Dispatcher.{
  Dispatcher, Env, Host, Round, round, pick_worker_for_type, is_empty, eligible_ids, robin_elem,
}
use goop.Cluster.Dispatcher.Picking.{robin_elem-pos}
use goop.Cluster.Worker.{Worker}
use goop.Cluster.Manager.{Manager, Role}
use goop.Cluster.Manager.Calls.{after_round, dispatch_round}
use goop.Cluster.Manager.Soundness.{fits, is_coherent, goes_well, IsWell}

-- The counter of a dispatcher, where there is one, is not negative.
abbrev pub Counts : Option Dispatcher → Type 0
Counts none = Unit
Counts (some d) = (n : ℕ) × (d.robin ≡ pos n)

pick_calm :
    (visited : Map WorkerInfo) (d : Dispatcher) (t : String)
    → Counts (some d)
    → (x : String) × (d' : Dispatcher) × (pick_worker_for_type visited d t ≡ ok (x, d'))
unfolding pick_worker_for_type
pick_calm visited d t (n, r) = elim (Bool-cases (is_empty (eligible_ids t visited))) [
  | inl e ↦ ("", d, rw e refl)
  | inr e ↦
      let (x, found, _) = robin_elem-pos n (eligible_ids t visited) e in
      let picked : robin_elem d.robin (eligible_ids t visited) ≡ some x = rw r found in
      (x, record d { robin = incr d.robin }, rw (e, picked) refl)
]

abbrev Calm : Round → Type 0
Calm (Round.stops h) = Unit
Calm (Round.goes_on h) = Unit
Calm (Round.panics f) = ⊥

round-Calm : (env : Env) (g : String) (h : Host) → Counts (some h.dispatcher) → Calm (round env g h)
unfolding round
round-Calm env g h at = elim (Option-cases (next_pending h.queue)) [
  | inl idle ↦ rw (idle, round) tt
  | inr (job, next) ↦
      let d = h.dispatcher in
      let (x, d', picked) = pick_calm (env.visit h.sent d.workers) d job.type at in
      elim (Bool-cases (x == "")) [
        | inl nobody ↦ rw (next, round, picked, nobody) tt
        | inr named ↦ rw (next, round, picked, named) tt
      ]
]

-- A manager with a queue and a dispatcher is a host, whatever they hold.
fits_any :
    (r : Role) (q q' : Queue) (d d' : Dispatcher) (w : Option Worker)
    → fits r (some q) (some d) w ≡ true
    → fits r (some q') (some d') w ≡ true
unfolding fits
fits_any Role.role_host q q' d d' none h = refl
fits_any Role.role_host q q' d d' (some w) h = cc
fits_any Role.role_worker q q' d d' w h = cc
fits_any Role.role_none q q' d d' w h = cc

fits_others :
    (q q' : Queue) (d d' : Dispatcher) (m : Manager)
    → m.queue ≡ some q
    → m.dispatcher ≡ some d
    → is_coherent m ≡ true
    → fits m.role (some q') (some d') m.worker ≡ true
unfolding is_coherent
fits_others q q' d d' m e f h =
    fits_any m.role q q' d d' m.worker (sym (ap₂ (λ x y. fits m.role x y m.worker) e f) ∙ h)

after_round-IsWell :
    (r : Round) (m : Manager) (q : Queue) (d : Dispatcher)
    → m.queue ≡ some q
    → m.dispatcher ≡ some d
    → is_coherent m ≡ true
    → Calm r
    → IsWell (after_round m r)
unfolding after_round is_coherent goes_well
after_round-IsWell (Round.stops h) m q d e f c calm = record {
  well = fits_others q h.queue d h.dispatcher m e f c;
}
after_round-IsWell (Round.goes_on h) m q d e f c calm = record {
  well = fits_others q h.queue d h.dispatcher m e f c;
}
after_round-IsWell (Round.panics x) m q d e f c calm = absurd calm

pub dispatch_round-IsWell :
    (env : Env) (m : Manager)
    → is_coherent m ≡ true
    → Counts m.dispatcher
    → IsWell (dispatch_round env m)
unfolding dispatch_round goes_well
dispatch_round-IsWell env m h at = elim (Option-cases m.queue) [
  | inl e ↦ rw (e, dispatch_round) (record { well = h })
  | inr (q, e) ↦ elim (Option-cases m.dispatcher) [
    | inl f ↦ rw (e, dispatch_round, f) (record { well = h })
    | inr (d, f) ↦
        let host : Host = record { queue = q; dispatcher = d; sent = m.sent } in
        rw (e, dispatch_round, f)
          (after_round-IsWell (round env m.group_id host) m q d e f h
            (round-Calm env m.group_id host (subst Counts f at)))
  ]
]
