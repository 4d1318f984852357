-- ===== src/Cluster/Dispatcher.antt =====
-- internal/group_types/cluster/dispatcher.go: the host's workers, and the loop that hands pending
-- jobs to them. What the network and the clock answer may depend on all messages sent so far; each
-- method is one step. `dispatch` is a tick with no other call between; Manager/Calls has its rounds as
-- steps among the calls of a manager.
pub mod Picking
pub mod Rounds
pub mod Loop
pub mod Starving
use goop.Base.{
  ℕ, zero, suc, ◌%◌, ◌+◌, Bool, true, false, ◌&&◌, ◌||◌, not, String, List, [], ◌∷◌, Option, none,
  some, if◌then◌else◌, ◌==◌, eqb, Result, ok, err, ◌≡◌,
}
use Prim.Native.String.{◌++◌ as str_append}
use goop.Base.Int.{ℤ, pos, negsuc, ltb_ℤ, leb_ℤ, incr, decr}
use goop.Base.Map.{Map, lookup, insert, erase}
use goop.Base.Json.{Fields}
use goop.Base.Lists.{length, get_elem?}
use goop.Cluster.Types.{Job, JobState, WorkerInfo, WorkerStatus}
use goop.Cluster.Queue.{Queue, next_pending, assign, fail}

-- What a host or a worker sends.
pub data Body : Type 0 where
  assignment : Job → Body
  cancellation : String → Body
  acknowledgement : String → Body
  progress : String → ℤ → String → Body
  success : String → Option Fields → Body
  failure : String → String → Body
  verification : Bool → List String → ℤ → Body
  binary : String → String → Body
  report : WorkerStatus → Body
  pausing resuming shutdown : Body

pub record Message : Type 0 where
  pub peer_id : String
  pub group_id : String
  pub body : Body

-- The send function, with its error, time.Now(), and the order in which `range` visits the workers,
-- after the messages sent so far (newest first).
pub record Env : Type 0 where
  pub send : List Message → Message → Option String
  pub now : List Message → ℕ
  pub visit : List Message → Map WorkerInfo → Map WorkerInfo

pub record Dispatcher : Type 0 where
  pub workers : Map WorkerInfo
  pub robin : ℤ

unfoldable pub new_dispatcher : Dispatcher
new_dispatcher = record { workers = []; robin = pos 0 }

unfoldable pub joined_worker : String → ℕ → WorkerInfo
joined_worker peer_id now = record {
  peer_id = peer_id;
  status = WorkerStatus.joined;
  binary_path = "";
  binary_mode = "";
  is_verified = false;
  job_types = [];
  capacity = pos 1;
  running_jobs = pos 0;
  last_seen = now;
}

-- `w, ok := s.workers[id]; if !ok { return }; w.F = …`
unfoldable pub on_worker : String → (WorkerInfo → WorkerInfo) → Dispatcher → Dispatcher
on_worker peer_id change d = elim (lookup peer_id d.workers) [
  | none ↦ d
  | some w ↦ record d { workers = insert peer_id (change w) d.workers }
]

unfoldable pub add_worker : Dispatcher → String → ℕ → Dispatcher
add_worker d peer_id now = elim (lookup peer_id d.workers) [
  | none ↦ record d { workers = insert peer_id (joined_worker peer_id now) d.workers }
  | some w ↦ record d { workers = insert peer_id (record w { last_seen = now }) d.workers }
]

unfoldable pub remove_worker : Dispatcher → String → Dispatcher
remove_worker d peer_id = record d { workers = erase peer_id d.workers }

unfoldable pub set_worker_verified : Dispatcher → String → Bool → List String → ℤ → ℕ → Dispatcher
set_worker_verified d peer_id verified types capacity now =
    on_worker peer_id
      (λ w. record w {
        is_verified = verified;
        job_types = types;
        capacity = if ltb_ℤ (pos 0) capacity then capacity else w.capacity;
        status = if verified then WorkerStatus.idle else WorkerStatus.joined;
        last_seen = now;
      })
      d

unfoldable pub set_worker_binary : Dispatcher → String → String → String → ℕ → Dispatcher
set_worker_binary d peer_id path mode now =
    on_worker peer_id (λ w. record w { binary_path = path; binary_mode = mode; last_seen = now }) d

unfoldable pub is_idle : WorkerStatus → Bool
is_idle WorkerStatus.idle = true
is_idle _ = false

unfoldable pub is_paused : WorkerStatus → Bool
is_paused WorkerStatus.paused = true
is_paused _ = false

unfoldable pub update_worker_status : Dispatcher → String → WorkerStatus → ℕ → Dispatcher
update_worker_status d peer_id status now =
    on_worker peer_id
      (λ w. record w {
        status = status;
        last_seen = now;
        running_jobs = if is_idle status then pos 0 else w.running_jobs;
      })
      d

unfoldable pub slice_contains : List String → String → Bool
slice_contains [] s = false
slice_contains (v ∷ vs) s = if v == s then true else slice_contains vs s

unfoldable pub is_empty : List String → Bool
is_empty [] = true
is_empty (_ ∷ _) = false

-- A worker that the loop of pickWorkerForType takes.
unfoldable pub is_eligible : String → WorkerInfo → Bool
is_eligible job_type w =
    if not w.is_verified || is_paused w.status || leb_ℤ w.capacity w.running_jobs
    then false
    else is_empty w.job_types || slice_contains w.job_types job_type

unfoldable pub eligible_ids : String → Map WorkerInfo → List String
eligible_ids job_type [] = []
eligible_ids job_type ((id, w) ∷ m) =
    let rest = eligible_ids job_type m in if is_eligible job_type w then id ∷ rest else rest

-- `ids[s.robin%len(ids)]`: Go's `%` keeps the sign of `robin`, and a negative index panics.
unfoldable pub robin_elem : ℤ → List String → Option String
robin_elem (pos n) ids = get_elem? ids (n % length ids)
robin_elem (negsuc n) ids = if eqb (suc n % length ids) 0 then get_elem? ids 0 else none

pub data Fault : Type 0 where
  index_out_of_range nil_dereference : Fault

-- `visited` are the workers in the order of this call: Go's `range` takes a new one each time.
unfoldable pub pick_worker_for_type :
    Map WorkerInfo → Dispatcher → String → Result Fault (String × Dispatcher)
pick_worker_for_type visited d job_type =
    let ids = eligible_ids job_type visited in
    if is_empty ids then ok ("", d) else elim (robin_elem d.robin ids) [
      | none ↦ err Fault.index_out_of_range
      | some pick ↦ ok (pick, record d { robin = incr d.robin })
    ]

pub record Host : Type 0 where
  pub queue : Queue
  pub dispatcher : Dispatcher
  pub sent : List Message

-- How one round of dispatch's loop ends.
pub data Round : Type 0 where
  stops : Host → Round
  goes_on : Host → Round
  panics : Fault → Round

abbrev start_job : WorkerInfo → WorkerInfo
start_job w = record w { status = WorkerStatus.busy; running_jobs = incr w.running_jobs }

abbrev undo_job : WorkerInfo → WorkerInfo
undo_job w = record w { status = WorkerStatus.idle; running_jobs = decr w.running_jobs }

abbrev pub assign_message : String → String → Job → Message
assign_message group_id worker job = record {
  peer_id = worker;
  group_id = group_id;
  body = Body.assignment job;
}

-- The part of a round from the assignment on.
unfoldable pub hand_out : Env → String → Host → Dispatcher → Job → String → Host
hand_out env group_id h d job worker =
    let queue = assign h.queue job.id worker (env.now h.sent) in
    let dispatcher = on_worker worker start_job d in
    let message = assign_message group_id worker job in
    let sent = message ∷ h.sent in
    elim (env.send h.sent message) [
      | none ↦ record { queue = queue; dispatcher = dispatcher; sent = sent }
      | some e ↦ record {
        queue = fail queue job.id (str_append "send failed: " e) (env.now sent);
        dispatcher = on_worker worker undo_job dispatcher;
        sent = sent;
      }
    ]

unfoldable pub round : Env → String → Host → Round
round env group_id h = elim (next_pending h.queue) [
  | none ↦ Round.stops h
  | some job ↦
      elim (pick_worker_for_type (env.visit h.sent h.dispatcher.workers) h.dispatcher job.type) [
        | err f ↦ Round.panics f
        | ok (worker, d) ↦
            if worker == ""
            then Round.stops (record h { dispatcher = d })
            else Round.goes_on (hand_out env group_id h d job worker)
      ]
]

pub data Outcome : Type 0 where
  done : Host → Outcome
  panicked : Fault → Outcome
  out_of_fuel : Outcome

-- The loop of dispatch, for at most `fuel` rounds.
unfoldable pub dispatch : ℕ → Env → String → Host → Outcome
dispatch zero env group_id h = Outcome.out_of_fuel
dispatch (suc fuel) env group_id h = elim (round env group_id h) [
  | stops h' ↦ Outcome.done h'
  | panics f ↦ Outcome.panicked f
  | goes_on h' ↦ dispatch fuel env group_id h'
]
