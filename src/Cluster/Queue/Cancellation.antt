-- ===== src/Cluster/Queue/Cancellation.antt =====
-- A cancelled job whose worker still reports: Cancel and Fail of internal/group_types/cluster/queue.go.
use goop.Base.{ℕ, String, false, some, ◌≡◌, refl, arith, ok}
use goop.Base.Int.{◌≤ℤ◌, incr}
use goop.Base.Map.{lookup, lookup-insert_self}
use goop.Cluster.Types.{JobState, JobStatus, is_terminal}
use goop.Cluster.Queue.{Queue, update, cancel, fail, failed_once, finished}
use goop.Cluster.Queue.Calls.{jobs-update}
use goop.Cluster.Queue.Retries.{lookup-fail}

-- A job that is not finished and may still fail once is cancelled by Cancel, and is pending again after
-- the next Fail, as when its worker reports that the run was cancelled: Fail does not look at the
-- status.
pub fail-cancel :
    (q : Queue) (id message : String) (js : JobState) (now later : ℕ)
    → lookup id q.jobs ≡ some js
    → is_terminal js.status ≡ false
    → incr js.retries ≤ℤ js.job.max_retry
    → (q' : Queue) × (js' js'' : JobState) × (cancel q id now ≡ ok q')
      × (lookup id q'.jobs ≡ some js')
      × (js'.status ≡ JobStatus.cancelled)
      × (lookup id (fail q' id message later).jobs ≡ some js'')
      × (js''.status ≡ JobStatus.pending)
unfolding cancel
fail-cancel q id message js now later e t h =
    let js' = record js { status = JobStatus.cancelled; done_at = now } in
    let found : lookup id (update id js' q).jobs ≡ some js' =
      rw (jobs-update id js' q) (lookup-insert_self id js' q.jobs) in
    (
      update id js' q,
      js',
      failed_once js' message later,
      rw (e, cancel, t),
      found,
      refl,
      lookup-fail (update id js' q) id message later found,
      unfold failed_once finished in ground arith,
    )
