-- ===== src/Cluster/Manager.antt =====
-- internal/group_types/cluster/manager.go: a peer's part in a cluster, as host or as worker. A call
-- that dereferences a nil pointer is an error here, `panic`. The database is one object that the
-- queue shares: while there is a queue, its state is the queue's `store`, and `db` otherwise. The
-- loop of the dispatcher is that of Dispatcher.antt.
pub mod Messages
pub mod Events
pub mod Soundness
pub mod Calls
pub mod Branches
pub mod HostCalls
pub mod Ticks
pub mod NoPanic
pub mod Stale
pub mod Wire
pub mod Overload
use goop.Base.{
  ℕ, suc, ◌+◌, Bool, true, false, ◌&&◌, not, String, List, [], ◌∷◌, Option, none, some,
  if◌then◌else◌, ◌==◌, Result, ok, err,
}
use goop.Base.Lists.{length}
use goop.Base.Map.{Map, lookup}
use goop.Cluster.Types.{Job, JobState, QueueStats, WorkerInfo, WorkerStatus, is_on_worker}
use goop.Cluster.Store.{JobStore, delete_jobs}
use goop.Cluster.Queue.{Queue, QueueError, new_queue, submit, cancel, delete, clear, states, stats}
use goop.Cluster.Dispatcher.{
  Dispatcher, Env, Fault, Body, Message, new_dispatcher, update_worker_status,
}
use goop.Cluster.Worker.{
  Worker, BinaryError, Task, new_worker, set_binary, send_to, pause, resume, close,
}

pub data Role : Type 0 where
  role_none role_host role_worker : Role

pub record Manager : Type 0 where
  pub self_id : String
  pub db : Option JobStore
  pub role : Role
  pub group_id : String
  pub queue : Option Queue
  pub dispatcher : Option Dispatcher
  pub worker : Option Worker
  -- workers that were closed, whose goroutines may still go on
  pub former : List Worker
  pub saved_binary_path : String
  pub saved_binary_mode : String
  pub subscribed : Bool
  -- newest first
  pub sent : List Message

pub data Failure : Type 0 where
  panic : Fault → Failure
  already_in : Role → String → Failure
  not_host not_worker : Failure
  of_queue : QueueError → Failure
  of_binary : BinaryError → Failure
  of_send : String → Failure

unfoldable pub new_manager : String → Manager
new_manager self_id = record {
  self_id = self_id;
  db = none;
  role = Role.role_none;
  group_id = "";
  queue = none;
  dispatcher = none;
  worker = none;
  former = [];
  saved_binary_path = "";
  saved_binary_mode = "";
  subscribed = true;
  sent = [];
}

unfoldable pub is_host : Role → Bool
is_host role_host = true
is_host _ = false

unfoldable pub is_worker : Role → Bool
is_worker role_worker = true
is_worker _ = false

unfoldable pub is_none : Role → Bool
is_none role_none = true
is_none _ = false

-- SetDB, called before there is a queue.
unfoldable pub set_db : Manager → JobStore → Manager
set_db m db = record m { db = some db }

unfoldable pub set_saved_binary : Manager → String → String → Manager
set_saved_binary m path mode = record m { saved_binary_path = path; saved_binary_mode = mode }

unfoldable pub post : String → Body → Manager → Manager
post peer_id body m = record m {
  sent = record { peer_id = peer_id; group_id = m.group_id; body = body } ∷ m.sent;
}

unfoldable pub create_cluster : Manager → String → Result Failure Manager
create_cluster m group_id =
    if is_host m.role && m.group_id == group_id
    then ok m
    else if not (is_none m.role)
    then err (Failure.already_in m.role m.group_id)
    else ok (record m {
      role = Role.role_host;
      group_id = group_id;
      queue = some (new_queue m.db group_id);
      dispatcher = some new_dispatcher;
    })

unfoldable pub add_task : Task → Worker → Worker
add_task t w = record w { due = t ∷ w.due }

unfoldable pub reannounce_if_any : Option Worker → Option Worker
reannounce_if_any none = none
reannounce_if_any (some w) = some (add_task Task.reannounces w)

unfoldable pub join_cluster : Manager → String → String → Result Failure Manager
join_cluster m group_id host_peer_id =
    let w = new_worker group_id host_peer_id in
    if is_worker m.role && m.group_id == group_id
    then ok (record m { worker = reannounce_if_any m.worker })
    else if not (is_none m.role)
    then err (Failure.already_in m.role m.group_id)
    else ok (record m {
      role = Role.role_worker;
      group_id = group_id;
      worker =
          if m.saved_binary_path == ""
          then some w
          else some (add_task (Task.sets_saved m.saved_binary_path m.saved_binary_mode) w);
    })

unfoldable pub shut_down : Map WorkerInfo → Manager → Manager
shut_down [] m = m
shut_down ((_, w) ∷ workers) m = shut_down workers (post w.peer_id Body.shutdown m)

unfoldable pub tell_workers : Manager → Manager
tell_workers m = elim m.dispatcher [
  | none ↦ m
  | some d ↦ if is_host m.role && not (m.group_id == "") then shut_down d.workers m else m
]

unfoldable pub close_worker : Option Worker → List Worker → List Worker
close_worker none former = former
close_worker (some w) former = close w ∷ former

-- The database after the last change through the queue.
unfoldable pub database : Manager → Option JobStore
database m = elim m.queue [ none ↦ m.db | some q ↦ q.store ]

unfoldable pub cleanup : Manager → Manager
cleanup m =
    let told = tell_workers m in
    record told {
      db = database m;
      role = Role.role_none;
      group_id = "";
      queue = none;
      dispatcher = none;
      worker = none;
      former = close_worker m.worker m.former;
    }

unfoldable pub leave_cluster : Manager → Manager
leave_cluster m = cleanup m

unfoldable pub close_manager : Manager → Manager
close_manager m = cleanup (record m { subscribed = false })

unfoldable pub with_queue : {A : Type 0} → Manager → (Queue → Result Failure A) → Result Failure A
with_queue m f = elim m.queue [ none ↦ err (Failure.panic Fault.nil_dereference) | some q ↦ f q ]

unfoldable pub with_dispatcher : Manager → (Dispatcher → Dispatcher) → Result Failure Manager
with_dispatcher m f = elim m.dispatcher [
  | none ↦ err (Failure.panic Fault.nil_dereference)
  | some d ↦ ok (record m { dispatcher = some (f d) })
]

unfoldable pub set_queue : Manager → Queue → Manager
set_queue m q = record m { queue = some q }

unfoldable pub submit_job : Manager → Job → String → ℕ → Result Failure (Manager × String)
submit_job m job generated now =
    if not (is_host m.role)
    then err Failure.not_host
    else with_queue m (λ q. let (q', id) = submit q job generated now in ok (set_queue m q', id))

unfoldable pub settle : Manager → Result QueueError Queue → Result Failure Manager
settle m (err e) = err (Failure.of_queue e)
settle m (ok q) = ok (set_queue m q)

-- The message to the worker that has the job.
unfoldable pub recall : Manager → Queue → String → Manager
recall m q id = elim (lookup id q.jobs) [
  | none ↦ m
  | some js ↦
      if not (js.worker_id == "") && is_on_worker js.status
      then post js.worker_id (Body.cancellation id) m
      else m
]

unfoldable pub cancel_job : Manager → String → ℕ → Result Failure Manager
cancel_job m id now =
    if not (is_host m.role)
    then err Failure.not_host
    else with_queue m (λ q. settle (recall m q id) (cancel q id now))

unfoldable pub delete_job : Manager → String → Result Failure Manager
delete_job m id =
    if not (is_host m.role)
    then err Failure.not_host
    else with_queue m (λ q. settle m (delete q id))

unfoldable pub delete_rows : String → Option JobStore → Option JobStore
delete_rows group_id none = none
delete_rows group_id (some s) = some (if group_id == "" then s else delete_jobs group_id s)

unfoldable pub clear_jobs : Manager → Result Failure Manager
clear_jobs m = if not (is_host m.role) then err Failure.not_host else elim m.queue [
  | none ↦ ok (record m { db = delete_rows m.group_id m.db })
  | some q ↦ ok (set_queue m (record (clear q) { store = delete_rows m.group_id q.store }))
]

unfoldable pub get_jobs : Manager → List JobState
get_jobs m =
    if not (is_host m.role) then [] else elim m.queue [ none ↦ [] | some q ↦ states q.jobs ]

unfoldable pub infos : Map WorkerInfo → List WorkerInfo
infos [] = []
infos ((_, w) ∷ workers) = w ∷ infos workers

unfoldable pub get_workers : Manager → List WorkerInfo
get_workers m =
    if not (is_host m.role) then [] else elim m.dispatcher [ none ↦ [] | some d ↦ infos d.workers ]

abbrev no_stats : QueueStats
no_stats = record { pending = 0; running = 0; completed = 0; failed = 0; workers = 0 }

unfoldable pub get_stats : Manager → QueueStats
get_stats m = if not (is_host m.role) then no_stats else elim m.queue [
  | none ↦ no_stats
  | some q ↦ record (stats q) { workers = length (get_workers m) }
]

unfoldable pub on_worker : Manager → (Worker → Result Failure Worker) → Result Failure Manager
on_worker m f = elim m.worker [
  | none ↦ err Failure.not_worker
  | some w ↦
      if not (is_worker m.role)
      then err Failure.not_worker
      else elim (f w) [ err e ↦ err e | ok w' ↦ ok (record m { worker = some w' }) ]
]

-- SetBinary with the message that follows it.
unfoldable pub choose_binary : String → String → Worker → Result Failure Worker
choose_binary path mode w = elim (set_binary w path mode) [
  | err e ↦ err (Failure.of_binary e)
  | ok w' ↦ ok (send_to w'.host_peer_id (Body.binary path mode) w')
]

unfoldable pub set_manager_binary : Manager → String → String → Result Failure Manager
set_manager_binary m path mode = on_worker m (choose_binary path mode)

unfoldable pub binary_path : Manager → String
binary_path m = elim m.worker [
  | none ↦ m.saved_binary_path
  | some w ↦ if w.binary_path == "" then m.saved_binary_path else w.binary_path
]

unfoldable pub binary_mode : Manager → String
binary_mode m = elim m.worker [
  | none ↦ m.saved_binary_mode
  | some w ↦ if w.binary_mode == "" then m.saved_binary_mode else w.binary_mode
]

unfoldable pub pause_worker : Manager → Result Failure Manager
pause_worker m = on_worker m (λ w. ok (pause w))

unfoldable pub resume_worker : Manager → Result Failure Manager
resume_worker m = on_worker m (λ w. ok (resume w))

-- The update and the message of PauseRemoteWorker and ResumeRemoteWorker; the error is that of send,
-- which leaves the update in place.
unfoldable pub steer :
    Env → WorkerStatus → Body → Manager → String → ℕ → Manager × Result Failure Unit
steer env status body m peer_id now =
    if not (is_host m.role)
    then (m, err Failure.not_host)
    else elim (with_dispatcher m (λ d. update_worker_status d peer_id status now)) [
      | err e ↦ (m, err e)
      | ok m' ↦ (
        post peer_id body m',
        elim (env.send m.sent (record { peer_id = peer_id; group_id = m.group_id; body = body })) [
          | none ↦ ok tt
          | some e ↦ err (Failure.of_send e)
        ],
      )
    ]

unfoldable pub pause_remote_worker : Env → Manager → String → ℕ → Manager × Result Failure Unit
pause_remote_worker env m peer_id now = steer env WorkerStatus.paused Body.pausing m peer_id now

unfoldable pub resume_remote_worker : Env → Manager → String → ℕ → Manager × Result Failure Unit
resume_remote_worker env m peer_id now = steer env WorkerStatus.idle Body.resuming m peer_id now
