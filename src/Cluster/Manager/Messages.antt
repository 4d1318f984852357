-- ===== src/Cluster/Manager/Messages.antt =====
-- internal/group_types/cluster/messages.go: the messages of a cluster, and the subscription of
-- NewManager. `role` is the role that the handler read before: another call may have changed it since.
use goop.Base.{
  ℕ, String, List, ◌∷◌, Option, none, some, ◌||◌, not, if◌then◌else◌, ◌==◌, Result, ok, err,
}
use goop.Base.Int.{pos}
use goop.Base.Json.{Fields, get, as_text, as_bool, as_int, as_object, as_texts}
use goop.Cluster.Types.{Job, WorkerStatus, worker_status}
use goop.Cluster.Queue.{Queue, mark_running, complete, fail, update_progress}
use goop.Cluster.Dispatcher.{Fault, set_worker_verified, set_worker_binary, update_worker_status}
use goop.Cluster.Worker.{Worker, handle_job, cancel, pause, resume}
use goop.Cluster.Manager.{Manager, Role, Failure, with_queue, with_dispatcher, set_queue}

unfoldable pub change_queue : Manager → (Queue → Queue) → Result Failure Manager
change_queue m f = with_queue m (λ q. ok (set_queue m (f q)))

-- A change of the queue, then UpdateWorkerStatus(from, WorkerIdle).
unfoldable pub close_job : Manager → String → ℕ → (Queue → Queue) → Result Failure Manager
close_job m from now f = elim (change_queue m f) [
  | err e ↦ err e
  | ok m' ↦ with_dispatcher m' (λ d. update_worker_status d from WorkerStatus.idle now)
]

unfoldable pub handle_result : Manager → String → Fields → ℕ → Result Failure Manager
handle_result m from fields now =
    let id = as_text (get "job_id" fields) in
    let status = as_text (get "status" fields) in
    if id == ""
    then ok m
    else if status == "completed"
    then close_job m from now (λ q. complete q id (as_object (get "result" fields)) now)
    else if status == "failed"
    then close_job m from now (λ q. fail q id (as_text (get "error" fields)) now)
    else ok m

unfoldable pub handle_host : Manager → String → String → Fields → ℕ → Result Failure Manager
handle_host m from msg_type fields now =
    let id = as_text (get "job_id" fields) in
    if msg_type == "job:ack"
    then (if id == "" then ok m else change_queue m (λ q. mark_running q id))
    else if msg_type == "job:result"
    then handle_result m from fields now
    else if msg_type == "job:progress"
    then (if id == ""
        then ok m
        else change_queue m (λ q.
          update_progress q id (as_int (get "percent" fields)) (as_text (get "message" fields))))
    else if msg_type == "worker:verified"
    then with_dispatcher m (λ d.
      set_worker_verified d from (as_bool (get "ok" fields)) (as_texts (get "types" fields))
        (as_int (get "capacity" fields)) now)
    else if msg_type == "worker:binary"
    then with_dispatcher m (λ d.
      set_worker_binary d from (as_text (get "path" fields)) (as_text (get "mode" fields)) now)
    else if msg_type == "worker:status"
    then with_dispatcher m
        (λ d. update_worker_status d from (worker_status (as_text (get "status" fields))) now)
    else ok m

unfoldable pub change_worker : Manager → (Worker → Worker) → Result Failure Manager
change_worker m f = elim m.worker [
  | none ↦ err (Failure.panic Fault.nil_dereference)
  | some w ↦ ok (record m { worker = some (f w) })
]

unfoldable pub received_job : Fields → Job
received_job fields = record {
  id = as_text (get "job_id" fields);
  type = as_text (get "type" fields);
  mode = "";
  payload = as_object (get "payload" fields);
  priority = pos 0;
  timeout_s = as_int (get "timeout_s" fields);
  max_retry = pos 0;
}

unfoldable pub handle_worker : Manager → String → String → Fields → ℕ → Result Failure Manager
handle_worker m from msg_type fields now =
    let id = as_text (get "job_id" fields) in
    if msg_type == "job:assign"
    then change_worker m (λ w. handle_job w from (received_job fields) now)
    else if msg_type == "job:cancel"
    then (if id == "" then ok m else change_worker m (λ w. cancel w id))
    else if msg_type == "worker:pause"
    then change_worker m pause
    else if msg_type == "worker:resume"
    then change_worker m resume
    else ok m

unfoldable pub handle_cluster_message :
    Role → Manager → String → String → Option Fields → ℕ → Result Failure Manager
handle_cluster_message role m from msg_type none now = ok m
handle_cluster_message Role.role_host m from msg_type (some fields) now =
    handle_host m from msg_type fields now
handle_cluster_message Role.role_worker m from msg_type (some fields) now =
    handle_worker m from msg_type fields now
handle_cluster_message Role.role_none m from msg_type (some fields) now = ok m

-- The function given to subscribe; `parts` is what strings.SplitN(topic, ":", 3) returns.
unfoldable pub receive : Manager → String → List String → Option Fields → ℕ → Result Failure Manager
receive m from (_ ∷ group_id ∷ msg_type ∷ _) payload now =
    if m.group_id == "" || not (group_id == m.group_id)
    then ok m
    else handle_cluster_message m.role m from msg_type payload now
receive m from _ payload now = ok m
