-- ===== src/Cluster/Dispatcher/Rounds.antt =====
-- One round of dispatch in internal/group_types/cluster/dispatcher.go: what it does to the queue and
-- to the worker that it picks.
use goop.Base.{ℕ, suc, ◌+◌, ◌-◌, ◌≤◌, ◌<◌, true, String, some, ◌≡◌, arith, if◌then◌else◌}
use goop.Base.Int.{pos_part, neg_part, ◌<ℤ◌, int_max, incr_parts}
use goop.Base.Map.{
  lookup, insert, Each, total, total-insert_old, lookup-insert_self, Each-lookup, Each-insert,
}
use goop.Cluster.Types.{JobState, JobStatus, is_pending}
use goop.Cluster.Queue.{Queue, assign, fail, failed_once, finished}
use goop.Cluster.Queue.Calls.{IsValid, Call, step, jobs-update}
use goop.Cluster.Queue.Invariant.{step-IsValid}

-- The failures of a job that Fail still forgives, and the times that it may still be handed out.
abbrev pub left : JobState → ℕ
left js =
    pos_part js.job.max_retry
    + neg_part js.retries
    - (pos_part js.retries + neg_part js.job.max_retry)

abbrev pub attempts : JobState → ℕ
attempts js = if is_pending js.status then suc (left js) else 0

-- All that the pending jobs may cost in rounds.
abbrev pub budget : Queue → ℕ
budget q = total attempts q.jobs

-- The counter of a pending job's failures is not about to wrap.
abbrev pub IsCounted : JobState → Type 0
IsCounted js = is_pending js.status ≡ true → (js.retries <ℤ int_max) × (js.job.max_retry <ℤ int_max)

abbrev assigned : JobState → String → ℕ → JobState
assigned js worker now = record js {
  status = JobStatus.assigned;
  worker_id = worker;
  started_at = now;
}

failed_once-attempts :
    (js : JobState) (message : String) (now : ℕ)
    → js.retries <ℤ int_max
    → attempts (failed_once js message now) ≤ left js
unfolding failed_once finished is_pending
failed_once-attempts js message now h = ground (arith, incr_parts js.retries h)

failed_once-IsCounted :
    (js : JobState) (message : String) (now : ℕ)
    → js.job.max_retry <ℤ int_max
    → IsCounted (failed_once js message now)
unfolding failed_once finished is_pending
failed_once-IsCounted js message now h = ground arith

module _ (q : Queue) (id worker : String) (js : JobState) (now : ℕ)
    (e : lookup id q.jobs ≡ some js) where
  jobs-assign : (assign q id worker now).jobs ≡ insert id (assigned js worker now) q.jobs
  unfolding assign
  jobs-assign = rw (e, assign) (jobs-update id (assigned js worker now) q)

  jobs-fail-assign :
      (message : String) (later : ℕ)
      → (fail (assign q id worker now) id message later).jobs
        ≡ insert id
            (failed_once (assigned js worker now) message later)
            (insert id (assigned js worker now) q.jobs)
  unfolding fail
  jobs-fail-assign message later =
      let found : lookup id (assign q id worker now).jobs ≡ some (assigned js worker now) =
        rw jobs-assign (lookup-insert_self id (assigned js worker now) q.jobs) in
      rw (found, fail, jobs-update, jobs-assign)

-- The queue after a round in which the job was handed out, or its sending failed.
pub record Spends (q q' : Queue) : Type 0 where
  pub valid : IsValid q'
  pub counted : Each (λ _ js. IsCounted js) q'.jobs
  pub spent : budget q' < budget q

module _ (q : Queue) (id worker : String) (js : JobState) (now : ℕ) (v : IsValid q)
    (c : Each (λ _ js. IsCounted js) q.jobs) (e : lookup id q.jobs ≡ some js)
    (p : is_pending js.status ≡ true) where
  counted_here : (js.retries <ℤ int_max) × (js.job.max_retry <ℤ int_max)
  counted_here = Each-lookup (λ _ js. IsCounted js) id q.jobs c e p

  pub assign-Spends : Spends q (assign q id worker now)
  unfolding is_pending
  assign-Spends = record {
    valid = unfold step in step-IsValid q (Call.assigns id worker now) v;
    counted =
        rw (jobs-assign q id worker js now e)
          (Each-insert (λ _ js. IsCounted js) id (assigned js worker now) q.jobs c (λ h. cc));
    spent =
        rw (jobs-assign q id worker js now e)
          (ground (arith, total-insert_old attempts id (assigned js worker now) js q.jobs e));
  }

  pub fail-assign-Spends :
      (message : String) (later : ℕ) → Spends q (fail (assign q id worker now) id message later)
  unfolding is_pending
  fail-assign-Spends message later =
      let js' = assigned js worker now in
      let js'' = failed_once js' message later in
      let m = insert id js' q.jobs in
      record {
        valid =
            unfold step in
            step-IsValid (assign q id worker now) (Call.fails id message later)
              (assign-Spends.valid);
        counted = rw (jobs-fail-assign q id worker js now e message later) (
            Each-insert (λ _ js. IsCounted js) id js'' m
              (Each-insert (λ _ js. IsCounted js) id js' q.jobs c (λ h. cc))
              (failed_once-IsCounted js' message later counted_here.1));
        spent = rw (jobs-fail-assign q id worker js now e message later) (
            ground (
              arith,
              total-insert_old attempts id js' js q.jobs e,
              total-insert_old attempts id js'' js' m (lookup-insert_self id js' q.jobs),
              failed_once-attempts js' message later counted_here.0,
            ));
      }
