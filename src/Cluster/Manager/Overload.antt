-- ===== src/Cluster/Manager/Overload.antt =====
-- The result of a job in internal/group_types/cluster/messages.go against the count of running jobs in
-- dispatcher.go.
use goop.Base.{ℕ, String, Option, true, false, ◌||◌, some, ◌≡◌, ◌==◌, ok, refl, arith}
use goop.Base.Int.{pos, ◌≤ℤ◌, ◌<ℤ◌}
use goop.Base.Json.{Fields}
use goop.Base.Map.{lookup, lookup-insert_self}
use goop.Cluster.Types.{WorkerInfo, WorkerStatus}
use goop.Cluster.Queue.{Queue}
use goop.Cluster.Dispatcher.{
  Dispatcher, Body, on_worker, update_worker_status, is_idle, is_paused, is_eligible, is_empty,
  slice_contains,
}
use goop.Cluster.Manager.{Manager, Role}
use goop.Cluster.Manager.Messages.{handle_cluster_message}
use goop.Cluster.Manager.Wire.{wire, is_from_worker, intended, handle_host-wire}

idle_frees_all :
    (d : Dispatcher) (id job_type : String) (w : WorkerInfo) (now : ℕ)
    → lookup id d.workers ≡ some w
    → w.is_verified ≡ true
    → pos 0 <ℤ w.capacity
    → (is_empty w.job_types || slice_contains w.job_types job_type) ≡ true
    → (w' : WorkerInfo) × (lookup id (update_worker_status d id WorkerStatus.idle now).workers
        ≡ some w')
      × (w'.running_jobs ≡ pos 0)
      × (is_eligible job_type w' ≡ true)
unfolding update_worker_status on_worker is_eligible is_idle is_paused
idle_frees_all d id job_type w now e v c takes =
    let w' = record w { status = WorkerStatus.idle; last_seen = now; running_jobs = pos 0 } in
    (w', rw (e, on_worker) (lookup-insert_self id w' d.workers), refl, ground arith)

-- A worker that has as many jobs as its capacity, or more, reports the result of one of them, whose id
-- is not empty, to the host. The handler of the message then leaves it with no running job in the
-- host's count, so that a worker that is verified, has a positive capacity and takes jobs of a type is
-- eligible for them again, which it was not before.
pub result_frees_all :
    (m : Manager) (q : Queue) (d : Dispatcher) (from job_id job_type : String)
    (result : Option Fields) (w : WorkerInfo) (now : ℕ)
    → (job_id == "") ≡ false
    → lookup from d.workers ≡ some w
    → w.is_verified ≡ true
    → pos 0 <ℤ w.capacity
    → w.capacity ≤ℤ w.running_jobs
    → (is_empty w.job_types || slice_contains w.job_types job_type) ≡ true
    → let (topic, fields) = wire (Body.success job_id result) in
      (is_eligible job_type w ≡ false)
      × (q' : Queue) × (d' : Dispatcher) × (w' : WorkerInfo) × (handle_cluster_message
            Role.role_host
            (record m { queue = some q; dispatcher = some d })
            from
            topic
            (some fields)
            now
          ≡ ok (record m { queue = some q'; dispatcher = some d' }))
      × (lookup from d'.workers ≡ some w')
      × (w'.running_jobs ≡ pos 0)
      × (is_eligible job_type w' ≡ true)
unfolding is_eligible is_from_worker intended
result_frees_all m q d from job_id job_type result w now named e v c full takes =
    let (w', after, none_left, able) = idle_frees_all d from job_type w now e v c takes in
    (
      ground arith,
      (intended (Body.success job_id result) from now q d).0,
      (intended (Body.success job_id result) from now q d).1,
      w',
      handle_host-wire (Body.success job_id result) m from now q d (rw named refl),
      after,
      none_left,
      able,
    )
