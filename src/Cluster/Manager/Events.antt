-- ===== src/Cluster/Manager/Events.antt =====
-- internal/group_types/cluster/messages.go (handleGroupEvent) and handler.go: what the group that
-- carries the cluster reports.
use goop.Base.{ℕ, String, List, [], ◌∷◌, ◌||◌, ◌&&◌, not, if◌then◌else◌, ◌==◌, Result, ok, err}
use goop.Cluster.Queue.{Queue, fail, worker_job_ids}
use goop.Cluster.Dispatcher.{add_worker, remove_worker}
use goop.Cluster.Manager.{
  Manager, Failure, with_queue, with_dispatcher, set_queue, is_host, is_none, is_worker, cleanup,
  join_cluster, leave_cluster,
}

pub record GroupEvent : Type 0 where
  pub type : String
  pub group : String
  pub from : String

unfoldable pub fail_each : List String → Queue → ℕ → Queue
fail_each [] q now = q
fail_each (id ∷ ids) q now = fail_each ids (fail q id "worker left" now) now

unfoldable pub drop_worker : Manager → String → ℕ → Result Failure Manager
drop_worker m from now = elim (with_dispatcher m (λ d. remove_worker d from)) [
  | err e ↦ err e
  | ok m' ↦ with_queue m' (λ q. ok (set_queue m' (fail_each (worker_job_ids from q.jobs) q now)))
]

unfoldable pub handle_group_event : Manager → GroupEvent → ℕ → Result Failure Manager
handle_group_event m evt now =
    let from_worker = is_host m.role && not (evt.from == m.self_id) in
    if m.group_id == "" || not (evt.group == m.group_id)
    then ok m
    else if evt.type == "join"
    then (if from_worker then with_dispatcher m (λ d. add_worker d evt.from now) else ok m)
    else if evt.type == "leave"
    then (if from_worker then drop_worker m evt.from now else ok m)
    else if evt.type == "close"
    then ok (cleanup m)
    else ok m

unfoldable pub on_join : Manager → String → String → ℕ → Result Failure Manager
on_join m group_id peer_id now =
    handle_group_event m (record { type = "join"; group = group_id; from = peer_id }) now

unfoldable pub on_leave : Manager → String → String → ℕ → Result Failure Manager
on_leave m group_id peer_id now =
    handle_group_event m (record { type = "leave"; group = group_id; from = peer_id }) now

unfoldable pub on_close : Manager → Manager
on_close m = leave_cluster m

unfoldable pub or_same : Manager → Result Failure Manager → Manager
or_same m (ok m') = m'
or_same m (err _) = m

-- The switch of OnEvent.
unfoldable pub follow : Manager → GroupEvent → Manager
follow m evt =
    if evt.type == "welcome" && (is_none m.role || is_worker m.role)
    then or_same m (join_cluster m evt.group evt.from)
    else if is_worker m.role && (evt.type == "leave" || evt.type == "close")
    then leave_cluster m
    else m

unfoldable pub on_event : Manager → GroupEvent → ℕ → Result Failure Manager
on_event m evt now = handle_group_event (follow m evt) evt now
