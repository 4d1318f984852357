-- ===== src/Tests/ClusterQueue.antt =====
-- internal/group_types/cluster/queue.go on concrete inputs.
use mathlib.Core.Option
use goop.Base.{
  ℕ, ◌≡◌, refl, true, String, List, [], ◌∷◌, none, some, arith, ok, ◌==◌, Bool-cases, inl, inr,
}
use goop.Base.Int.{pos, incr, int_max, suc_ℤ}
use goop.Base.Map.{Map, lookup}
use goop.Cluster.Types.{Job, JobState, JobStatus, is_pending, is_terminal}
use goop.Cluster.Store.{JobStore, on_disk, stored_time, stored_fields}
use goop.Cluster.Queue.{Queue, best_pending, next_pending, cancel, fail, new_queue}
use goop.Cluster.Queue.Calls.{Call, IsValid, is_clear, step}
use goop.Cluster.Queue.Selection.{IsChoice, next_pending-IsChoice}
use goop.Cluster.Queue.Persistence.{Mirrors, Mirrored, step-Mirrored}
use goop.Cluster.Queue.Restart.{found_again, lookup-new_queue}
use goop.Cluster.Queue.Cancellation.{fail-cancel}

abbrev pub job : String → ℕ → Job
job id priority = record {
  id = id;
  type = "calculate";
  mode = "oneshot";
  payload = none;
  priority = pos priority;
  timeout_s = pos 0;
  max_retry = pos 1;
}

abbrev pub state : String → ℕ → JobState
state id priority = record {
  job = job id priority;
  status = JobStatus.pending;
  worker_id = "";
  result = none;
  error = "";
  progress = pos 0;
  progress_msg = "";
  retries = pos 0;
  created_at = 3_000_000_000;
  started_at = 0;
  done_at = 0;
  elapsed_ms = pos 0;
}

abbrev pub jobs : Map JobState
jobs = ("a", state "a" 1) ∷ ("b", state "b" 5) ∷ ("c", state "c" 2) ∷ []

abbrev pub store : JobStore
store = record {
  works = true;
  rows =
      ("a", record { group_id = "g"; state = state "a" 1 })
      ∷ ("b", record { group_id = "g"; state = state "b" 5 })
      ∷ ("c", record { group_id = "g"; state = state "c" 2 })
      ∷ [];
}

abbrev pub queue : Queue
queue = record { jobs = jobs; store = some store; group_id = "g" }

highest_first : next_pending queue ≡ some (job "b" 5)
unfolding next_pending best_pending is_pending
highest_first = refl

pub queue-IsValid : IsValid queue
unfolding lookup
queue-IsValid = record { distinct = (refl, (refl, (refl, tt))); keyed = (refl, (refl, (refl, tt))) }

next_pending-IsChoice_example : IsChoice queue (next_pending queue)
next_pending-IsChoice_example = next_pending-IsChoice queue queue-IsValid

abbrev failures : List (String × ℕ)
failures = ("lost", 5) ∷ ("lost", 6) ∷ []

-- A group with one job.
abbrev small : Queue
small = record queue {
  jobs = ("a", state "a" 1) ∷ [];
  store =
      some (record {
        works = true;
        rows = ("a", record { group_id = "g"; state = state "a" 1 }) ∷ [];
      });
}

abbrev small_store : JobStore
small_store = record {
  works = true;
  rows = ("a", record { group_id = "g"; state = state "a" 1 }) ∷ [];
}

small-IsValid : IsValid small
unfolding lookup
small-IsValid = record { distinct = (refl, tt); keyed = (refl, tt) }

small-Mirrors : Mirrors small small_store
unfolding lookup on_disk stored_time stored_fields
small-Mirrors = record {
  stored = refl;
  works = refl;
  grouped = refl;
  table = record { distinct = (refl, tt); keyed = (refl, tt) };
  agrees = λ id. elim (Bool-cases ("a" == id)) [ inl e ↦ rw e refl | inr e ↦ rw e tt ];
}

step-Mirrored_example : Mirrored (step small (Call.assigns "a" "w" 9))
unfolding is_clear
step-Mirrored_example =
    step-Mirrored small small_store (Call.assigns "a" "w" 9) small-IsValid small-Mirrors refl tt

lookup-new_queue_example :
    lookup "a" (new_queue (some small_store) "g").jobs
    ≡ Option.map (λ js. found_again js.status (on_disk js)) (lookup "a" small.jobs)
lookup-new_queue_example = lookup-new_queue small small_store "a" small-Mirrors

fail-cancel_example :
    (q : Queue) × (js js' : JobState) × (cancel queue "b" 8 ≡ ok q)
    × (lookup "b" q.jobs ≡ some js)
    × (js.status ≡ JobStatus.cancelled)
    × (lookup "b" (fail q "b" "killed" 9).jobs ≡ some js')
    × (js'.status ≡ JobStatus.pending)
unfolding lookup is_terminal incr int_max suc_ℤ
fail-cancel_example = fail-cancel queue "b" "killed" (state "b" 5) 8 9 refl refl (omega arith)
