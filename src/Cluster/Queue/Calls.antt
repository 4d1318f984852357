-- ===== src/Cluster/Queue/Calls.antt =====
-- The calls that change a queue, as one type, and what a call does to the map of jobs.
use goop.Base.{
  Bool, true, false, ℕ, String, List, [], ◌∷◌, Option, some, ◌≡◌, refl, Result, ok, err, arith,
}
use goop.Base.{Option-cases, Bool-cases, inl, inr, ◌∙◌}
use goop.Base.Int.{ℤ}
use goop.Base.Map.{Map, lookup, insert, erase, Each, IsDistinct, Each-lookup}
use goop.Base.Json.{Fields}
use goop.Cluster.Types.{Job, JobState, is_terminal, is_live, is_assigned}
use goop.Cluster.Queue.{
  Queue, QueueError, persist, update, forget, submit, submitted, with_id, cancel, delete, assign,
  mark_running, complete, finished, fail, failed_once, update_progress, clear,
}

pub data Call : Type 0 where
  submits : Job → String → ℕ → Call
  cancels : String → ℕ → Call
  deletes : String → Call
  assigns : String → String → ℕ → Call
  runs : String → Call
  completes : String → Option Fields → ℕ → Call
  fails : String → String → ℕ → Call
  progresses : String → ℤ → String → Call
  clears : Call

-- A refused call leaves the queue as it was.
abbrev pub after : Queue → Result QueueError Queue → Queue
after q (ok q') = q'
after q (err _) = q

unfoldable pub step : Queue → Call → Queue
step q (submits job generated now) = (submit q job generated now).0
step q (cancels id now) = after q (cancel q id now)
step q (deletes id) = after q (delete q id)
step q (assigns id worker_id now) = assign q id worker_id now
step q (runs id) = mark_running q id
step q (completes id result now) = complete q id result now
step q (fails id message now) = fail q id message now
step q (progresses id percent message) = update_progress q id percent message
step q clears = clear q

unfoldable pub run : Queue → List Call → Queue
run q [] = q
run q (c ∷ cs) = run (step q c) cs

-- The id that a call is about; the empty text where it is about none or all.
unfoldable pub target : Call → String
target (submits job generated now) = (with_id generated job).id
target (cancels id now) = id
target (deletes id) = id
target (assigns id worker_id now) = id
target (runs id) = id
target (completes id result now) = id
target (fails id message now) = id
target (progresses id percent message) = id
target clears = ""

unfoldable pub is_clear : Call → Bool
is_clear clears = true
is_clear _ = false

pub record IsValid (q : Queue) : Type 0 where
  pub distinct : IsDistinct q.jobs
  pub keyed : Each (λ id js. js.job.id ≡ id) q.jobs

pub jobs-persist : (js : JobState) (q : Queue) → (persist js q).jobs ≡ q.jobs
unfolding persist
jobs-persist js q = ground arith

pub jobs-update :
    (id : String) (js : JobState) (q : Queue) → (update id js q).jobs ≡ insert id js q.jobs
unfolding update
jobs-update id js q = jobs-persist js (record q { jobs = insert id js q.jobs })

pub jobs-forget : (id : String) (q : Queue) → (forget id q).jobs ≡ erase id q.jobs
unfolding forget
jobs-forget id q = ground arith

-- What a call does to the jobs of `q`: nothing, one job written under its own id, one job dropped,
-- or, where `all` says so, every one of them.
pub data Change (m : Map JobState) (id : String) (all : Bool) : Map JobState → Type 0 where
  same : Change m id all m
  put : (js : JobState) → js.job.id ≡ id → Change m id all (insert id js m)
  drop : Change m id all (erase id m)
  empty : all ≡ true → Change m id all []

change_put :
    (q : Queue) (id : String) (js : JobState)
    → js.job.id ≡ id
    → Change q.jobs id false (update id js q).jobs
change_put q id js e = rw jobs-update (put js e)

job-failed_once :
    (js : JobState) (message : String) (now : ℕ) → (failed_once js message now).job.id ≡ js.job.id
unfolding failed_once finished
job-failed_once js message now = ground arith

module _ (q : Queue) (v : IsValid q) (id : String) where
  job_id : {js : JobState} → lookup id q.jobs ≡ some js → js.job.id ≡ id
  job_id e = Each-lookup (λ id js. js.job.id ≡ id) id q.jobs v.keyed e

  cancel-Change : (now : ℕ) → Change q.jobs id false (after q (cancel q id now)).jobs
  unfolding cancel
  cancel-Change now = elim (Option-cases (lookup id q.jobs)) [
    | inl e ↦ rw (e, cancel) same
    | inr (js, e) ↦
        rw (e, cancel)
          (elim (Bool-cases (is_terminal js.status)) [
            | inl t ↦ rw t same
            | inr t ↦ rw t (change_put q id _ (job_id e))
          ])
  ]

  delete-Change : Change q.jobs id false (after q (delete q id)).jobs
  unfolding delete
  delete-Change = elim (Option-cases (lookup id q.jobs)) [
    | inl e ↦ rw (e, delete) same
    | inr (js, e) ↦
        rw (e, delete)
          (elim (Bool-cases (is_live js.status)) [
            | inl t ↦ rw t same
            | inr t ↦ rw t (rw jobs-forget drop)
          ])
  ]

  assign-Change :
      (worker_id : String) (now : ℕ) → Change q.jobs id false (assign q id worker_id now).jobs
  unfolding assign
  assign-Change worker_id now = elim (Option-cases (lookup id q.jobs)) [
    | inl e ↦ rw (e, assign) same
    | inr (js, e) ↦ rw (e, assign) (change_put q id _ (job_id e))
  ]

  mark_running-Change : Change q.jobs id false (mark_running q id).jobs
  unfolding mark_running
  mark_running-Change = elim (Option-cases (lookup id q.jobs)) [
    | inl e ↦ rw (e, mark_running) same
    | inr (js, e) ↦
        rw (e, mark_running)
          (elim (Bool-cases (is_assigned js.status)) [
            | inl t ↦ rw t (change_put q id _ (job_id e))
            | inr t ↦ rw t same
          ])
  ]

  complete-Change :
      (result : Option Fields) (now : ℕ) → Change q.jobs id false (complete q id result now).jobs
  unfolding complete finished
  complete-Change result now = elim (Option-cases (lookup id q.jobs)) [
    | inl e ↦ rw (e, complete) same
    | inr (js, e) ↦ rw (e, complete) (change_put q id _ (job_id e))
  ]

  fail-Change : (message : String) (now : ℕ) → Change q.jobs id false (fail q id message now).jobs
  unfolding fail
  fail-Change message now = elim (Option-cases (lookup id q.jobs)) [
    | inl e ↦ rw (e, fail) same
    | inr (js, e) ↦ rw (e, fail) (change_put q id _ (job-failed_once js message now ∙ job_id e))
  ]

  update_progress-Change :
      (percent : ℤ) (message : String)
      → Change q.jobs id false (update_progress q id percent message).jobs
  unfolding update_progress
  update_progress-Change percent message = elim (Option-cases (lookup id q.jobs)) [
    | inl e ↦ rw (e, update_progress) same
    | inr (js, e) ↦ rw (e, update_progress) (change_put q id _ (job_id e))
  ]

-- Every call changes at most the job that it names; only `clears` touches the others.
pub step-Change :
    (q : Queue) (c : Call) → IsValid q → Change q.jobs (target c) (is_clear c) (step q c).jobs
unfolding step target is_clear submit submitted clear
step-Change q (submits job generated now) v = change_put q (with_id generated job).id _ refl
step-Change q (cancels id now) v = cancel-Change q v id now
step-Change q (deletes id) v = delete-Change q v id
step-Change q (assigns id worker_id now) v = assign-Change q v id worker_id now
step-Change q (runs id) v = mark_running-Change q v id
step-Change q (completes id result now) v = complete-Change q v id result now
step-Change q (fails id message now) v = fail-Change q v id message now
step-Change q (progresses id percent message) v = update_progress-Change q v id percent message
step-Change q clears v = empty refl
