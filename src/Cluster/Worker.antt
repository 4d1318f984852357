-- ===== src/Cluster/Worker.antt =====
-- internal/group_types/cluster/worker.go: the worker, with the goroutines that it starts. What the
-- binary answers (RunOneshot) and the clock are arguments of the steps; the send function's errors are
-- ignored by the code.
pub mod Answers
pub mod Quiet
use goop.Base.{
  ℕ, zero, suc, ◌+◌, Bool, true, false, ◌&&◌, not, String, List, [], ◌∷◌, Option, none, some,
  if◌then◌else◌, ◌==◌, eqb, Result, ok, err,
}
use goop.Base.Int.{ℤ, pos}
use goop.Base.Lists.{get_elem?}
use goop.Base.Map.{Map, lookup, insert, erase}
use goop.Base.Json.{Fields, Float, Value, get, as_texts}
use goop.Cluster.Types.{Job, WorkerStatus}
use goop.Cluster.Dispatcher.{Body, Message, is_idle, is_paused}

-- `context` is the number of the context that `cancel` cancels.
pub record ActiveJob : Type 0 where
  pub job : Job
  pub host_peer_id : String
  pub started_at : ℕ
  pub context : ℕ

-- A goroutine in runJob.
pub record Run : Type 0 where
  pub context : ℕ
  pub is_cancelled : Bool
  pub host_peer_id : String
  pub job : Job
  pub binary_path : String

-- A goroutine of JoinCluster, which has not run yet: Reannounce, or SetBinary with the saved binary.
pub data Task : Type 0 where
  reannounces : Task
  sets_saved : String → String → Task

pub record Worker : Type 0 where
  pub group_id : String
  pub host_peer_id : String
  pub status : WorkerStatus
  pub binary_path : String
  pub binary_mode : String
  pub verified : Bool
  pub jobs : Map ActiveJob
  -- the goroutines in runJob, and the number of the next context
  pub runs : List Run
  pub next_context : ℕ
  -- the goroutines of verify that have not read the path yet, and the paths that the others check
  pub checks_due : ℕ
  pub checks : List String
  pub due : List Task
  -- newest first
  pub sent : List Message

unfoldable pub new_worker : String → String → Worker
new_worker group_id host_peer_id = record {
  group_id = group_id;
  host_peer_id = host_peer_id;
  status = WorkerStatus.joined;
  binary_path = "";
  binary_mode = "";
  verified = false;
  jobs = [];
  runs = [];
  next_context = 0;
  checks_due = 0;
  checks = [];
  due = [];
  sent = [];
}

unfoldable pub send_to : String → Body → Worker → Worker
send_to peer_id body w = record w {
  sent = record { peer_id = peer_id; group_id = w.group_id; body = body } ∷ w.sent;
}

pub data BinaryError : Type 0 where
  empty_path : BinaryError
  invalid_mode : String → BinaryError

unfoldable pub default_mode : String → String
default_mode mode = if mode == "" then "oneshot" else mode

unfoldable pub set_binary : Worker → String → String → Result BinaryError Worker
set_binary w path mode =
    let m = default_mode mode in
    if path == ""
    then err BinaryError.empty_path
    else if not (m == "oneshot") && not (m == "daemon")
    then err (BinaryError.invalid_mode m)
    else ok (record w {
      binary_path = path;
      binary_mode = m;
      verified = false;
      status = WorkerStatus.joined;
      checks_due = suc w.checks_due;
    })

unfoldable pub set_verified : Bool → Worker → Worker
set_verified done w = record w {
  verified = done;
  status = if done then WorkerStatus.idle else WorkerStatus.joined;
}

-- verify up to the call of RunOneshot.
unfoldable pub verify : Worker → Worker
verify w = elim (w.checks_due) [
  | zero ↦ w
  | suc n ↦
      if w.binary_path == ""
      then record w { checks_due = n }
      else record w { checks_due = n; checks = w.binary_path ∷ w.checks }
]

unfoldable pub remove_at {ℓ} : {A : Type ℓ} → ℕ → List A → List A
remove_at i [] = []
remove_at zero (x ∷ xs) = xs
remove_at (suc i) (x ∷ xs) = x ∷ remove_at i xs

-- `if c, _ := result["capacity"].(float64); c > 0 { capacity = int(c) }`
unfoldable pub checked_capacity : Value → ℤ
checked_capacity (Value.number f) = if f.is_positive then f.truncated else pos 1
checked_capacity _ = pos 1

-- verify from the answer of RunOneshot on: an error, or the object that the binary printed.
unfoldable pub send_verified : Worker → ℕ → Result String Fields → Worker
send_verified w i answer = elim (get_elem? w.checks i) [
  | none ↦ w
  | some _ ↦
      let w' = record w { checks = remove_at i w.checks } in
      elim answer [
        | err e ↦
            send_to w.host_peer_id (Body.verification false [] (pos 0)) (set_verified false w')
        | ok result ↦
            send_to w.host_peer_id
              (Body.verification true (as_texts (get "types" result))
                (checked_capacity (get "capacity" result)))
              (set_verified true w')
      ]
]

unfoldable pub reannounce : Worker → Worker
reannounce w =
    if w.binary_path == ""
    then w
    else send_to w.host_peer_id (Body.binary w.binary_path w.binary_mode)
        (record w { checks_due = suc w.checks_due })

unfoldable pub do_task : Task → Worker → Worker
do_task reannounces w = reannounce w
do_task (sets_saved path mode) w = elim (set_binary w path mode) [
  | ok w' ↦ send_to w'.host_peer_id (Body.binary path mode) w'
  | err _ ↦ w
]

unfoldable pub run_task : Worker → ℕ → Worker
run_task w i = elim (get_elem? w.due i) [
  | none ↦ w
  | some t ↦ do_task t (record w { due = remove_at i w.due })
]

unfoldable pub handle_job : Worker → String → Job → ℕ → Worker
handle_job w host job now =
    let n = w.next_context in
    if w.binary_path == ""
    then w
    else send_to host (Body.acknowledgement job.id) (record w {
      status = WorkerStatus.busy;
      jobs =
          insert job.id (record { job = job; host_peer_id = host; started_at = now; context = n })
            w.jobs;
      runs =
          record {
            context = n;
            is_cancelled = false;
            host_peer_id = host;
            job = job;
            binary_path = w.binary_path;
          }
          ∷ w.runs;
      next_context = suc n;
    })

-- progressFn, called in the `i`-th goroutine
unfoldable pub report_progress : Worker → ℕ → ℤ → String → Worker
report_progress w i percent message = elim (get_elem? w.runs i) [
  | none ↦ w
  | some r ↦ send_to r.host_peer_id (Body.progress r.job.id percent message) w
]

unfoldable pub has_none {ℓ} : {A : Type ℓ} → List A → Bool
has_none [] = true
has_none (_ ∷ _) = false

unfoldable pub idle_if_free : Worker → Worker
idle_if_free w = if has_none w.jobs then record w { status = WorkerStatus.idle } else w

unfoldable pub result_body : Job → Result String Fields → Body
result_body job (err e) = Body.failure job.id e
result_body job (ok result) = Body.success job.id (some result)

-- runJob from the answer of RunOneshot on, with the deferred function.
unfoldable pub run_job : Worker → ℕ → Result String Fields → Worker
run_job w i answer = elim (get_elem? w.runs i) [
  | none ↦ w
  | some r ↦
      let w' = send_to r.host_peer_id (result_body r.job answer) w in
      idle_if_free (record w' { jobs = erase r.job.id w.jobs; runs = remove_at i w.runs })
]

unfoldable pub cancel_context : ℕ → List Run → List Run
cancel_context n [] = []
cancel_context n (r ∷ rs) =
    (if eqb r.context n then record r { is_cancelled = true } else r) ∷ cancel_context n rs

unfoldable pub cancel : Worker → String → Worker
cancel w id = elim (lookup id w.jobs) [
  | none ↦ idle_if_free w
  | some a ↦
      idle_if_free (record w { jobs = erase id w.jobs; runs = cancel_context a.context w.runs })
]

unfoldable pub pause : Worker → Worker
pause w =
    send_to w.host_peer_id (Body.report WorkerStatus.paused)
      (if is_idle w.status then record w { status = WorkerStatus.paused } else w)

unfoldable pub resume : Worker → Worker
resume w =
    send_to w.host_peer_id (Body.report WorkerStatus.idle)
      (if is_paused w.status then record w { status = WorkerStatus.idle } else w)

unfoldable pub cancel_all : Map ActiveJob → List Run → List Run
cancel_all [] runs = runs
cancel_all ((_, a) ∷ m) runs = cancel_all m (cancel_context a.context runs)

unfoldable pub close : Worker → Worker
close w = record w { jobs = []; runs = cancel_all w.jobs w.runs; status = WorkerStatus.offline }

-- The calls of a worker and the steps of its goroutines, which may come in any order.
pub data Event : Type 0 where
  binary_set : String → String → Event
  check_begins : Event
  check_ends : ℕ → Result String Fields → Event
  task_runs : ℕ → Event
  job_arrives : String → Job → ℕ → Event
  progress_made : ℕ → ℤ → String → Event
  run_ends : ℕ → Result String Fields → Event
  cancelled : String → Event
  paused resumed closed : Event

unfoldable pub kept : {E : Type 0} → Worker → Result E Worker → Worker
kept w (ok w') = w'
kept w (err _) = w

unfoldable pub step : Worker → Event → Worker
step w (binary_set path mode) = kept w (set_binary w path mode)
step w check_begins = verify w
step w (check_ends i answer) = send_verified w i answer
step w (task_runs i) = run_task w i
step w (job_arrives host job now) = handle_job w host job now
step w (progress_made i percent message) = report_progress w i percent message
step w (run_ends i answer) = run_job w i answer
step w (cancelled id) = cancel w id
step w paused = pause w
step w resumed = resume w
step w closed = close w

unfoldable pub steps : Worker → List Event → Worker
steps w [] = w
steps w (e ∷ es) = steps (step w e) es
