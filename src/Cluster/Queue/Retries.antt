-- ===== src/Cluster/Queue/Retries.antt =====
-- How often Queue.Fail of internal/group_types/cluster/queue.go gives a job another chance.
use goop.Base.{
  ℕ, suc, ◌+◌, ◌<◌, ◌^◌, ◌-◌, String, List, [], ◌∷◌, some, ◌≡◌, arith, leb, if◌then◌else◌,
}
use goop.Base.Int.{pos, incr-pos}
use goop.Base.Map.{lookup, lookup-insert_self}
use goop.Cluster.Types.{JobState, JobStatus}
use goop.Cluster.Queue.{Queue, fail, failed_once, finished}
use goop.Cluster.Queue.Calls.{jobs-update}

abbrev pub length {ℓ} : {A : Type ℓ} → List A → ℕ
length [] = 0
length (_ ∷ xs) = suc (length xs)

-- One failure after another of the same job, each with its message and its time.
unfoldable pub fail_each : Queue → String → List (String × ℕ) → Queue
fail_each q id [] = q
fail_each q id ((message, now) ∷ l) = fail_each (fail q id message now) id l

pub lookup-fail :
    (q : Queue) (id : String) {js : JobState} (message : String) (now : ℕ)
    → lookup id q.jobs ≡ some js
    → lookup id (fail q id message now).jobs ≡ some (failed_once js message now)
unfolding fail
lookup-fail q id {js} message now e =
    rw (e, fail, jobs-update) (lookup-insert_self id (failed_once js message now) q.jobs)

-- The state of a job after `n` failures in all.
abbrev pub FailedTimes : JobState → ℕ → ℕ → Type 0
FailedTimes js most n =
    (js.retries ≡ pos n)
    × (js.job.max_retry ≡ pos most)
    × (js.status ≡ (if leb n most then JobStatus.pending else JobStatus.failed))

failed_once-FailedTimes :
    (js : JobState) (most n : ℕ) (message : String) (now : ℕ)
    → n < 2 ^ 63 - 1
    → js.retries ≡ pos n
    → js.job.max_retry ≡ pos most
    → FailedTimes (failed_once js message now) most (suc n)
unfolding failed_once finished
failed_once-FailedTimes js most n message now small r m = ground (arith, incr-pos n small)

fail_each-FailedTimes :
    (l : List (String × ℕ)) (q : Queue) (id : String) (js : JobState) (most n : ℕ)
    → n + length l < 2 ^ 63
    → lookup id q.jobs ≡ some js
    → FailedTimes js most n
    → (js' : JobState) × (lookup id (fail_each q id l).jobs ≡ some js')
      × FailedTimes js' most (n + length l)
unfolding fail_each
fail_each-FailedTimes [] q id js most n small e f =
    let same : n + 0 ≡ n = omega arith in (js, e, rw same f)
fail_each-FailedTimes ((message, now) ∷ l) q id js most n small e f =
    let next = failed_once-FailedTimes js most n message now (omega arith) f.0 f.1 in
    let (js', found, holds) =
      fail_each-FailedTimes l (fail q id message now) id (failed_once js message now) most (suc n)
        (omega arith) (lookup-fail q id message now e) next in
    let same : suc n + length l ≡ n + suc (length l) = omega arith in
    (js', found, rw (← same) holds)

-- A pending job that has not failed yet is offered again after each of its first MaxRetry failures,
-- with the number of failures counted, and is failed for good from the next one on. (The counter is
-- an `int`, so the failures are fewer than 2^63.)
pub fail_each_retries :
    (q : Queue) (id : String) (js : JobState) (most : ℕ) (l : List (String × ℕ))
    → lookup id q.jobs ≡ some js
    → js.status ≡ JobStatus.pending
    → js.retries ≡ pos 0
    → js.job.max_retry ≡ pos most
    → length l < 2 ^ 63
    → (js' : JobState) × (lookup id (fail_each q id l).jobs ≡ some js')
      × (js'.retries ≡ pos (length l))
      × (js'.status ≡ (if leb (length l) most then JobStatus.pending else JobStatus.failed))
fail_each_retries q id js most l e p r m small =
    let (js', found, holds) =
      fail_each-FailedTimes l q id js most 0 (omega arith) e (r, m, ground arith) in
    let same : 0 + length l ≡ length l = omega arith in
    let holds' = rw same at holds in (js', found, holds'.0, holds'.2)
