-- ===== src/Cluster/Manager/HostCalls.antt =====
-- internal/group_types/cluster/{manager,messages,handler}.go: what each call of a host and each group
-- event leaves.
use goop.Base.{
  ℕ, String, Option, none, some, Bool, true, false, ◌||◌, ◌&&◌, not, if◌then◌else◌, ◌==◌, Result,
  ok, err, ◌≡◌, refl, Bool-cases, Option-cases, inl, inr, ap,
}
use goop.Cluster.Types.{Job, WorkerStatus}
use goop.Cluster.Queue.{Queue}
use goop.Cluster.Dispatcher.{Dispatcher, Env, Body, Fault, update_worker_status, remove_worker}
use goop.Cluster.Worker.{Worker, Event}
use goop.Cluster.Manager.{
  Manager, Role, Failure, is_host, is_none, is_worker, post, join_cluster, cleanup, leave_cluster,
  with_queue, with_dispatcher, set_queue, submit_job, clear_jobs, steer,
}
use goop.Cluster.Manager.Events.{GroupEvent, drop_worker, handle_group_event, or_same, follow}
use goop.Cluster.Manager.Soundness.{
  fits, is_coherent, goes_well, IsWell, IsHost, IsHost-of, IsWell-if, host-IsWell,
  dispatcher-IsWell, queue-IsWell, with_queue-IsWell, set_queue-IsHost,
}
use goop.Cluster.Manager.Calls.{first, after_steer, work}
use goop.Cluster.Manager.Branches.{host_only, same-IsWell, cleanup-IsWell, and_left, join-IsWell}

pub given : Dispatcher → Manager → Manager
given d m = record m { dispatcher = some d }

pub given-IsHost : (m : Manager) (d : Dispatcher) → IsHost m → IsHost (given d m)
unfolding given
given-IsHost m d p = record {
  queue = p.queue;
  dispatcher = d;
  as_host = p.as_host;
  has_queue = p.has_queue;
  has_dispatcher = refl;
  no_worker = p.no_worker;
}

pub given_or_panic :
    Manager → (Dispatcher → Dispatcher) → Option Dispatcher → Result Failure Manager
given_or_panic m f o = elim o [
  | none ↦ err (Failure.panic Fault.nil_dereference)
  | some d ↦ ok (given (f d) m)
]

pub with_dispatcher_of :
    (m : Manager) (f : Dispatcher → Dispatcher) (p : IsHost m)
    → with_dispatcher m f ≡ ok (given (f p.dispatcher) m)
unfolding with_dispatcher given given_or_panic
with_dispatcher_of m f p = ap (given_or_panic m f) p.has_dispatcher

pub post-IsHost :
    (m : Manager) (peer_id : String) (body : Body) → IsHost m → IsHost (post peer_id body m)
unfolding post
post-IsHost m peer_id body p = record {
  queue = p.queue;
  dispatcher = p.dispatcher;
  as_host = p.as_host;
  has_queue = p.has_queue;
  has_dispatcher = p.has_dispatcher;
  no_worker = p.no_worker;
}

pub steer-IsWell :
    (m : Manager) (env : Env) (status : WorkerStatus) (body : Body) (peer_id : String) (now : ℕ)
    → is_coherent m ≡ true
    → IsWell (after_steer (steer env status body m peer_id now))
unfolding steer after_steer
steer-IsWell m env status body peer_id now h = elim (Bool-cases (is_host m.role)) [
  | inl e ↦
      let p = IsHost-of m h e in
      let d = update_worker_status p.dispatcher peer_id status now in
      let there = with_dispatcher_of m (λ d. update_worker_status d peer_id status now) p in
      let sound = host-IsWell _ (post-IsHost _ peer_id body (given-IsHost m d p)) in
      elim (Option-cases
        (env.send m.sent (record { peer_id = peer_id; group_id = m.group_id; body = body }))) [
          | inl f ↦ rw (e, there, f) sound
          | inr (_, f) ↦ rw (e, there, f) sound
        ]
  | inr e ↦ rw e (same-IsWell m h)
]

pub drop-IsWell :
    (m : Manager) (from : String) (now : ℕ) → IsHost m → IsWell (drop_worker m from now)
unfolding drop_worker
drop-IsWell m from now p =
    let there = with_dispatcher_of m (λ d. remove_worker d from) p in
    let p' = given-IsHost m (remove_worker p.dispatcher from) p in
    rw (there, drop_worker) (with_queue-IsWell _ _ p' (λ q. queue-IsWell _ _ p'))

pub worker_only :
    (m : Manager) (b : Bool) (x : Result Failure Manager)
    → is_coherent m ≡ true
    → (IsHost m → IsWell x)
    → IsWell (if is_host m.role && b then x else ok m)
worker_only m b x h k = elim (Bool-cases (is_host m.role && b)) [
  | inl e ↦ rw e (k (IsHost-of m h (and_left (is_host m.role) b e)))
  | inr e ↦ rw e (same-IsWell m h)
]

pub event-IsWell :
    (m : Manager) (evt : GroupEvent) (now : ℕ)
    → is_coherent m ≡ true
    → IsWell (handle_group_event m evt now)
unfolding handle_group_event
event-IsWell m evt now h =
    let same = same-IsWell m h in
    let from_worker = is_host m.role && not (evt.from == m.self_id) in
    IsWell-if (m.group_id == "" || not (evt.group == m.group_id)) _ _ same (
      IsWell-if (evt.type == "join") _ _
        (worker_only m (not (evt.from == m.self_id)) _ h (dispatcher-IsWell m _))
        (IsWell-if (evt.type == "leave") _ _
          (worker_only m (not (evt.from == m.self_id)) _ h (drop-IsWell m evt.from now))
          (IsWell-if (evt.type == "close") _ _ (cleanup-IsWell m) same)))

pub coherent_if :
    (b : Bool) (x y : Manager)
    → is_coherent x ≡ true
    → is_coherent y ≡ true
    → is_coherent (if b then x else y) ≡ true
coherent_if true x y h g = h
coherent_if false x y h g = g

pub kept_coherent :
    (m : Manager) (r : Result Failure Manager)
    → is_coherent m ≡ true
    → IsWell r
    → is_coherent (or_same m r) ≡ true
unfolding or_same goes_well
kept_coherent m (ok m') h w = w.well
kept_coherent m (err _) h w = h

pub left_coherent : (m : Manager) → is_coherent (leave_cluster m) ≡ true
unfolding is_coherent leave_cluster cleanup fits
left_coherent m = refl

pub follow_coherent :
    (m : Manager) (evt : GroupEvent) → is_coherent m ≡ true → is_coherent (follow m evt) ≡ true
unfolding follow
follow_coherent m evt h =
    coherent_if (evt.type == "welcome" && (is_none m.role || is_worker m.role)) _ _
      (kept_coherent m (join_cluster m evt.group evt.from) h (join-IsWell m evt.group evt.from h))
      (coherent_if (is_worker m.role && (evt.type == "leave" || evt.type == "close")) _ _
        (left_coherent m) h)

pub submit-IsWell :
    (m : Manager) (job : Job) (generated : String) (now : ℕ)
    → is_coherent m ≡ true
    → IsWell (first (submit_job m job generated now))
unfolding submit_job with_queue first goes_well
submit-IsWell m job generated now h = elim (Bool-cases (is_host m.role)) [
  | inl e ↦
      let p = IsHost-of m h e in
      rw (e, p.has_queue) (queue-IsWell _ _ (unfold set_queue in set_queue-IsHost m p.queue p))
  | inr e ↦ rw e (record { well = refl })
]

pub clear-IsWell : (m : Manager) → is_coherent m ≡ true → IsWell (clear_jobs m)
unfolding clear_jobs
clear-IsWell m h = host_only m _ h (λ p. rw p.has_queue (queue-IsWell m _ p))

pub fits_work :
    (r : Role) (q : Option Queue) (d : Option Dispatcher) (w : Option Worker) (e : Event)
    → fits r q d w ≡ true
    → fits r q d (work e w) ≡ true
unfolding work fits
fits_work r q d none e h = h
fits_work Role.role_host none none (some w) e h = h
fits_work Role.role_host none (some d) (some w) e h = h
fits_work Role.role_host (some q) none (some w) e h = h
fits_work Role.role_host (some q) (some d) (some w) e h = h
fits_work Role.role_worker none none (some w) e h = h
fits_work Role.role_worker none (some d) (some w) e h = h
fits_work Role.role_worker (some q) none (some w) e h = h
fits_work Role.role_worker (some q) (some d) (some w) e h = h
fits_work Role.role_none none none (some w) e h = h
fits_work Role.role_none none (some d) (some w) e h = h
fits_work Role.role_none (some q) none (some w) e h = h
fits_work Role.role_none (some q) (some d) (some w) e h = h

pub works-IsWell :
    (m : Manager) (e : Event)
    → is_coherent m ≡ true
    → IsWell (ok (record m { worker = work e m.worker }))
unfolding goes_well is_coherent work
works-IsWell m e h = record { well = fits_work m.role m.queue m.dispatcher m.worker e h }
