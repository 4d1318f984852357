-- ===== src/Cluster/Manager/Calls.antt =====
-- internal/group_types/cluster/{manager,messages,handler}.go: the calls of a manager, in any order.
use goop.Base.{ℕ, String, List, [], ◌∷◌, Option, none, some, Result, ok, err}
use goop.Base.Json.{Fields}
use goop.Cluster.Types.{Job, WorkerStatus}
use goop.Cluster.Store.{JobStore}
use goop.Cluster.Dispatcher.{Env, Body, Fault, Round, round}
use goop.Cluster.Worker.{Worker, Event, step}
use goop.Cluster.Manager.{
  Manager, Failure, create_cluster, join_cluster, leave_cluster, close_manager, submit_job,
  cancel_job, delete_job, clear_jobs, set_manager_binary, pause_worker, resume_worker, steer,
  new_manager, set_db, set_saved_binary,
}
use goop.Cluster.Manager.Messages.{receive}
use goop.Cluster.Manager.Events.{GroupEvent, handle_group_event, on_event}

pub data Call : Type 0 where
  creates : String → Call
  joins : String → String → Call
  leaves closes : Call
  submits : Job → String → ℕ → Call
  cancels : String → ℕ → Call
  deletes : String → Call
  clears : Call
  chooses : String → String → Call
  pauses resumes : Call
  steers : Env → WorkerStatus → Body → String → ℕ → Call
  receives : String → List String → Option Fields → ℕ → Call
  hears follows : GroupEvent → ℕ → Call
  saves : String → String → Call
  -- a step of the worker's goroutines
  works : Event → Call
  -- a round of a tick of the dispatcher
  dispatches : Env → Call

unfoldable pub first : Result Failure (Manager × String) → Result Failure Manager
first (ok (m, _)) = ok m
first (err e) = err e

-- A call that returns an error may have changed the manager, unless it panics.
unfoldable pub after_steer : Manager × Result Failure Unit → Result Failure Manager
after_steer (m, ok _) = ok m
after_steer (m, err (Failure.panic f)) = err (Failure.panic f)
after_steer (m, err _) = ok m

unfoldable pub work : Event → Option Worker → Option Worker
work e none = none
work e (some w) = some (step w e)

unfoldable pub after_round : Manager → Round → Result Failure Manager
after_round m (Round.stops h) =
    ok (record m { queue = some h.queue; dispatcher = some h.dispatcher; sent = h.sent })
after_round m (Round.goes_on h) =
    ok (record m { queue = some h.queue; dispatcher = some h.dispatcher; sent = h.sent })
after_round m (Round.panics f) = err (Failure.panic f)

-- The goroutine of Run, which a host has: one round of the loop of dispatch. Between two rounds no lock
-- is held.
unfoldable pub dispatch_round : Env → Manager → Result Failure Manager
dispatch_round env m = elim m.queue [
  | none ↦ ok m
  | some q ↦ elim m.dispatcher [
    | none ↦ ok m
    | some d ↦
        after_round m (round env m.group_id (record { queue = q; dispatcher = d; sent = m.sent }))
  ]
]

-- A manager as the program sets it up: SetDB, where there is a database, and SetSavedBinary.
unfoldable pub set_up : String → Option JobStore → String → String → Manager
set_up self_id none path mode = set_saved_binary (new_manager self_id) path mode
set_up self_id (some db) path mode = set_saved_binary (set_db (new_manager self_id) db) path mode

unfoldable pub call : Manager → Call → Result Failure Manager
call m (creates group_id) = create_cluster m group_id
call m (joins group_id host) = join_cluster m group_id host
call m leaves = ok (leave_cluster m)
call m closes = ok (close_manager m)
call m (submits job generated now) = first (submit_job m job generated now)
call m (cancels id now) = cancel_job m id now
call m (deletes id) = delete_job m id
call m clears = clear_jobs m
call m (chooses path mode) = set_manager_binary m path mode
call m pauses = pause_worker m
call m resumes = resume_worker m
call m (steers env status body peer_id now) = after_steer (steer env status body m peer_id now)
call m (receives from parts payload now) = receive m from parts payload now
call m (hears evt now) = handle_group_event m evt now
call m (follows evt now) = on_event m evt now
call m (saves path mode) = ok (set_saved_binary m path mode)
call m (dispatches env) = dispatch_round env m
call m (works e) = ok (record m { worker = work e m.worker })

-- The calls one after the other, up to the first panic.
unfoldable pub proceed :
    Manager → Result Failure Manager → (Manager → Result Fault Manager) → Result Fault Manager
proceed m (ok m') k = k m'
proceed m (err (Failure.panic f)) k = err f
proceed m (err _) k = k m

unfoldable pub calls : Manager → List Call → Result Fault Manager
calls m [] = ok m
calls m (c ∷ cs) = proceed m (call m c) (λ m'. calls m' cs)
