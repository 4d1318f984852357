-- ===== src/Cluster/Types.antt =====
-- internal/group_types/cluster/types.go. A time is the number of nanoseconds since Go's zero time,
-- so `IsZero` is the test against 0.
use goop.Base.{ℕ, String, Bool, true, false, List, Option, if◌then◌else◌, ◌==◌}
use goop.Base.Int.{ℤ}
use goop.Base.Json.{Fields}

-- A value of type JobStatus is a string: one read from the database may be none of the constants.
pub data JobStatus : Type 0 where
  pending assigned running completed failed cancelled : JobStatus
  unknown : String → JobStatus

-- So is a WorkerStatus, which a worker may send as it likes.
pub data WorkerStatus : Type 0 where
  joined verified idle busy paused offline : WorkerStatus
  other : String → WorkerStatus

-- The conversion WorkerStatus(s).
unfoldable pub worker_status : String → WorkerStatus
worker_status s =
    if s == "joined"
    then WorkerStatus.joined
    else if s == "verified"
    then WorkerStatus.verified
    else if s == "idle"
    then WorkerStatus.idle
    else if s == "busy"
    then WorkerStatus.busy
    else if s == "paused"
    then WorkerStatus.paused
    else if s == "offline"
    then WorkerStatus.offline
    else WorkerStatus.other s

pub record Job : Type 0 where
  pub id : String
  pub type : String
  pub mode : String
  pub payload : Option Fields
  pub priority : ℤ
  pub timeout_s : ℤ
  pub max_retry : ℤ

pub record JobState : Type 0 where
  pub job : Job
  pub status : JobStatus
  pub worker_id : String
  pub result : Option Fields
  pub error : String
  pub progress : ℤ
  pub progress_msg : String
  pub retries : ℤ
  pub created_at : ℕ
  pub started_at : ℕ
  pub done_at : ℕ
  pub elapsed_ms : ℤ

pub record WorkerInfo : Type 0 where
  pub peer_id : String
  pub status : WorkerStatus
  pub binary_path : String
  pub binary_mode : String
  pub is_verified : Bool
  pub job_types : List String
  pub capacity : ℤ
  pub running_jobs : ℤ
  pub last_seen : ℕ

pub record QueueStats : Type 0 where
  pub pending : ℕ
  pub running : ℕ
  pub completed : ℕ
  pub failed : ℕ
  pub workers : ℕ

-- The case `StatusCompleted, StatusFailed, StatusCancelled` of a switch.
unfoldable pub is_terminal : JobStatus → Bool
is_terminal completed = true
is_terminal failed = true
is_terminal cancelled = true
is_terminal _ = false

-- The case `StatusPending, StatusAssigned, StatusRunning`.
unfoldable pub is_live : JobStatus → Bool
is_live pending = true
is_live assigned = true
is_live running = true
is_live _ = false

unfoldable pub is_pending : JobStatus → Bool
is_pending pending = true
is_pending _ = false

unfoldable pub is_assigned : JobStatus → Bool
is_assigned assigned = true
is_assigned _ = false

-- `s == StatusAssigned || s == StatusRunning`
unfoldable pub is_on_worker : JobStatus → Bool
is_on_worker assigned = true
is_on_worker running = true
is_on_worker _ = false
