-- ===== src/Cluster/Queue.antt =====
-- internal/group_types/cluster/queue.go: the host's jobs by id, each change written through to the
-- store. The clock and the random id of generateID are arguments; the mutex makes each method one
-- step.
pub mod Calls
pub mod Invariant
pub mod Selection
pub mod Retries
pub mod Counts
pub mod Persistence
pub mod Restart
pub mod Cancellation
use goop.Base.{
  ℕ, suc, ◌+◌, ◌-◌, ◌/◌, ◌≤◌, Bool, true, false, ◌&&◌, not, String, List, [], ◌∷◌, Option, none,
  some, if◌then◌else◌, ◌==◌, leb, eqb, Result, ok, err,
}
use goop.Base.Int.{ℤ, pos, negsuc, ltb_ℤ, leb_ℤ, incr}
use goop.Base.Time.{saturated}
use goop.Base.Map.{Map, lookup, insert, erase}
use goop.Base.Json.{Fields}
use goop.Cluster.Types.{
  Job, JobState, JobStatus, QueueStats, is_terminal, is_live, is_pending, is_assigned, is_on_worker,
}
use goop.Cluster.Store.{JobStore, save_job, delete_job, load_jobs}

pub record Queue : Type 0 where
  pub jobs : Map JobState
  pub store : Option JobStore
  pub group_id : String

pub data QueueError : Type 0 where
  not_found : String → QueueError
  already_terminal : String → JobStatus → QueueError
  still_live : String → JobStatus → QueueError

unfoldable pub persist : JobState → Queue → Queue
persist js q = elim q.store [
  | none ↦ q
  | some s ↦ if q.group_id == "" then q else record q { store = some (save_job q.group_id js s) }
]

-- The body of NewQueue's loop.
unfoldable pub recover : JobState → JobState
recover js =
    if is_on_worker js.status then record js { status = JobStatus.pending; worker_id = "" } else js

unfoldable pub restore : Queue → JobState → Queue
restore q js =
    let js' = recover js in
    let q' = if is_on_worker js.status then persist js' q else q in
    record q' { jobs = insert js.job.id js' q'.jobs }

unfoldable pub restore_all : Queue → List JobState → Queue
restore_all q [] = q
restore_all q (js ∷ loaded) = restore_all (restore q js) loaded

unfoldable pub loaded_jobs : Option JobStore → String → List JobState
loaded_jobs none group_id = []
loaded_jobs (some s) group_id =
    if group_id == "" then [] else elim (load_jobs group_id s) [ none ↦ [] | some l ↦ l ]

unfoldable pub new_queue : Option JobStore → String → Queue
new_queue store group_id =
    restore_all (record { jobs = []; store = store; group_id = group_id })
      (loaded_jobs store group_id)

-- `js.F = …; q.persist(js)` for `js := q.jobs[id]`.
unfoldable pub update : String → JobState → Queue → Queue
update id js q = persist js (record q { jobs = insert id js q.jobs })

unfoldable pub submitted : Job → ℕ → JobState
submitted job now = record {
  job = job;
  status = JobStatus.pending;
  worker_id = "";
  result = none;
  error = "";
  progress = pos 0;
  progress_msg = "";
  retries = pos 0;
  created_at = now;
  started_at = 0;
  done_at = 0;
  elapsed_ms = pos 0;
}

unfoldable pub with_id : String → Job → Job
with_id generated job = if job.id == "" then record job { id = generated } else job

unfoldable pub submit : Queue → Job → String → ℕ → Queue × String
submit q job generated now =
    let job' = with_id generated job in (update job'.id (submitted job' now) q, job'.id)

unfoldable pub cancel : Queue → String → ℕ → Result QueueError Queue
cancel q id now = elim (lookup id q.jobs) [
  | none ↦ err (QueueError.not_found id)
  | some js ↦
      if is_terminal js.status
      then err (QueueError.already_terminal id js.status)
      else ok (update id (record js { status = JobStatus.cancelled; done_at = now }) q)
]

unfoldable pub forget : String → Queue → Queue
forget id q = elim q.store [
  | none ↦ record q { jobs = erase id q.jobs }
  | some s ↦
      let rest = record q { jobs = erase id q.jobs } in
      if q.group_id == "" then rest else record rest { store = some (delete_job q.group_id id s) }
]

unfoldable pub delete : Queue → String → Result QueueError Queue
delete q id = elim (lookup id q.jobs) [
  | none ↦ err (QueueError.not_found id)
  | some js ↦
      if is_live js.status then err (QueueError.still_live id js.status) else ok (forget id q)
]

-- The loop of NextPending over the jobs in the order of the visit.
unfoldable pub best_pending : Map JobState → Option JobState → Option JobState
best_pending [] best = best
best_pending ((_, js) ∷ m) best = best_pending m (
    if is_pending js.status
    then elim best [
      | none ↦ some js
      | some b ↦ if ltb_ℤ b.job.priority js.job.priority then some js else some b
    ]
    else best)

unfoldable pub next_pending : Queue → Option Job
next_pending q = elim (best_pending q.jobs none) [ none ↦ none | some js ↦ some js.job ]

unfoldable pub assign : Queue → String → String → ℕ → Queue
assign q id worker_id now = elim (lookup id q.jobs) [
  | none ↦ q
  | some js ↦
      update id (record js { status = JobStatus.assigned; worker_id = worker_id; started_at = now })
        q
]

unfoldable pub mark_running : Queue → String → Queue
mark_running q id = elim (lookup id q.jobs) [
  | none ↦ q
  | some js ↦
      if is_assigned js.status then update id (record js { status = JobStatus.running }) q else q
]

-- `done.Sub(started).Milliseconds()`: a Duration saturates at 2^63 - 1 ns, and the division cuts
-- towards zero.
negative : ℕ → ℤ
negative n = if eqb n 0 then pos 0 else negsuc (n - 1)

unfoldable pub milliseconds : ℕ → ℕ → ℤ
unfolding saturated negative
milliseconds done started =
    if leb started done
    then pos (saturated (done - started) / 1_000_000)
    else negative (saturated (started - done) / 1_000_000)

-- `js.DoneAt = time.Now()`, with the elapsed time if the job was started.
unfoldable pub finished : JobState → ℕ → JobState
finished js now = record js {
  done_at = now;
  elapsed_ms = if eqb js.started_at 0 then js.elapsed_ms else milliseconds now js.started_at;
}

unfoldable pub complete : Queue → String → Option Fields → ℕ → Queue
complete q id result now = elim (lookup id q.jobs) [
  | none ↦ q
  | some js ↦
      update id (record (finished js now) { status = JobStatus.completed; result = result }) q
]

unfoldable pub failed_once : JobState → String → ℕ → JobState
failed_once js message now =
    let js' = record js { retries = incr js.retries; error = message } in
    if leb_ℤ js'.retries js.job.max_retry
    then record js' { status = JobStatus.pending; worker_id = "" }
    else record (finished js' now) { status = JobStatus.failed }

unfoldable pub fail : Queue → String → String → ℕ → Queue
fail q id message now = elim (lookup id q.jobs) [
  | none ↦ q
  | some js ↦ update id (failed_once js message now) q
]

unfoldable pub update_progress : Queue → String → ℤ → String → Queue
update_progress q id percent message = elim (lookup id q.jobs) [
  | none ↦ q
  | some js ↦ update id (record js { progress = percent; progress_msg = message }) q
]

unfoldable pub clear : Queue → Queue
clear q = record q { jobs = [] }

unfoldable pub states : Map JobState → List JobState
states [] = []
states ((_, js) ∷ m) = js ∷ states m

unfoldable pub count : QueueStats → JobStatus → QueueStats
count s JobStatus.pending = record s { pending = suc s.pending }
count s JobStatus.assigned = record s { pending = suc s.pending }
count s JobStatus.running = record s { running = suc s.running }
count s JobStatus.completed = record s { completed = suc s.completed }
count s JobStatus.failed = record s { failed = suc s.failed }
count s _ = s

unfoldable pub stats_from : QueueStats → Map JobState → QueueStats
stats_from s [] = s
stats_from s ((_, js) ∷ m) = stats_from (count s js.status) m

unfoldable pub stats : Queue → QueueStats
stats q =
    stats_from (record { pending = 0; running = 0; completed = 0; failed = 0; workers = 0 }) q.jobs

unfoldable pub worker_job_ids : String → Map JobState → List String
worker_job_ids worker_id [] = []
worker_job_ids worker_id ((_, js) ∷ m) =
    let rest = worker_job_ids worker_id m in
    if js.worker_id == worker_id && is_on_worker js.status then js.job.id ∷ rest else rest
