-- ===== src/Cluster/Manager/Wire.antt =====
-- The maps that internal/group_types/cluster/{dispatcher,worker,manager}.go send, against the reading of
-- them in messages.go. A message goes over the network as JSON, and its numbers come back as float64.
use goop.Base.{
  ℕ, String, List, [], ◌∷◌, Option, none, some, Bool, true, false, not, ◌&&◌, ◌==◌, ok, ◌≡◌, refl,
  ap, ◌∙◌, zero, suc, ◌+◌, ◌-◌, ◌*◌, ◌/◌, ◌%◌, ◌^◌, ◌||◌, ltb, leb, eqb, if◌then◌else◌, arith,
}
use native.Mathlib.Nat.{mod-one, div-one}
use goop.Base.Int.{ℤ, pos, negsuc, ltb_ℤ}
use goop.Base.Json.{
  Fields, Items, Value, get, as_text, as_bool, as_int, as_object, as_texts, texts, end, field,
}
use goop.Cluster.Types.{Job, WorkerStatus, worker_status}
use goop.Cluster.Queue.{Queue, mark_running, complete, fail, update_progress}
use goop.Cluster.Dispatcher.{
  Dispatcher, Body, set_worker_verified, set_worker_binary, update_worker_status,
}
use goop.Cluster.Worker.{Worker, handle_job, cancel, pause, resume}
use goop.Cluster.Manager.{Manager, Role, with_queue, with_dispatcher, set_queue}
use goop.Cluster.Manager.Messages.{
  change_queue, close_job, handle_result, handle_host, change_worker, received_job, handle_worker,
  handle_cluster_message,
}

-- The multiple of `unit` that is nearest to `n`, of two the even one.
unfoldable pub nearest : ℕ → ℕ → ℕ
nearest n unit =
    let q = n / unit in
    let r = n % unit in
    if ltb (r + r) unit || (eqb (r + r) unit && eqb (q % 2) 0) then q * unit else suc q * unit

-- A float64 has 53 bits: the unit doubles until the number fits.
unfoldable pub float_from : ℕ → ℕ → ℕ → ℕ
float_from zero n unit = nearest n unit
float_from (suc fuel) n unit =
    let wider = float_from fuel n (unit + unit) in
    if ltb n (2 ^ 53 * unit) then nearest n unit else wider

-- The float64 of a number of at most 64 bits, whose unit is at most 2 ^ 11.
abbrev pub float_of : ℕ → ℕ
float_of n = float_from 11 n 1

-- `int(f)`. What is beyond an int becomes the least one, as on amd64.
unfoldable pub int_of_float : Bool → ℕ → ℤ
int_of_float true zero = pos 0
int_of_float true (suc n) = if leb n (2 ^ 63 - 1) then negsuc n else negsuc (2 ^ 63 - 1)
int_of_float false n = if ltb n (2 ^ 63) then pos n else negsuc (2 ^ 63 - 1)

unfoldable pub sent_int : ℤ → ℤ
unfolding float_of
sent_int (pos n) = int_of_float false (float_of n)
sent_int (negsuc n) = int_of_float true (float_of (suc n))

-- An int that was sent as JSON.
unfoldable pub number_of : ℤ → Value
number_of n = Value.number (record { truncated = sent_int n; is_positive = ltb_ℤ (pos 0) n })

-- Its magnitude is below 2 ^ 53.
unfoldable pub is_exact : ℤ → Bool
is_exact (pos n) = ltb n (2 ^ 53)
is_exact (negsuc n) = ltb (suc n) (2 ^ 53)

nearest_one : (n : ℕ) → nearest n 1 ≡ n
unfolding nearest
nearest_one n = rw (mod-one n, div-one n) (omega arith)

float_from_small : (fuel n : ℕ) → ltb n (2 ^ 53) ≡ true → float_from (suc fuel) n 1 ≡ n
unfolding float_from
float_from_small fuel n h = rw h (nearest_one n)

float_of_exact : (n : ℕ) → ltb n (2 ^ 53) ≡ true → float_of n ≡ n
float_of_exact n h = float_from_small 10 n h

pos_exact : (n : ℕ) → ltb n (2 ^ 53) ≡ true → int_of_float false n ≡ pos n
unfolding int_of_float
pos_exact n h = let small : ltb n (2 ^ 63) ≡ true = ground arith in rw small refl

neg_exact : (n : ℕ) → ltb (suc n) (2 ^ 53) ≡ true → int_of_float true (suc n) ≡ negsuc n
unfolding int_of_float
neg_exact n h = let small : leb n (2 ^ 63 - 1) ≡ true = ground arith in rw small refl

as_int-number_of : (n : ℤ) → is_exact n ≡ true → as_int (number_of n) ≡ n
unfolding as_int number_of sent_int is_exact
as_int-number_of (pos n) h = ap (int_of_float false) (float_of_exact n h) ∙ pos_exact n h
as_int-number_of (negsuc n) h = ap (int_of_float true) (float_of_exact (suc n) h) ∙ neg_exact n h

unfoldable pub object_of : Option Fields → Value
object_of none = Value.null
object_of (some fs) = Value.object fs

unfoldable pub items_of : List String → Items
items_of [] = Items.nil
items_of (s ∷ ss) = Items.cons (Value.string s) (items_of ss)

unfoldable pub status_text : WorkerStatus → String
status_text WorkerStatus.joined = "joined"
status_text WorkerStatus.verified = "verified"
status_text WorkerStatus.idle = "idle"
status_text WorkerStatus.busy = "busy"
status_text WorkerStatus.paused = "paused"
status_text WorkerStatus.offline = "offline"
status_text (WorkerStatus.other s) = s

unfoldable pub assignment_fields : Job → Fields
assignment_fields job = field "job_id" (Value.string job.id) (
    field "type" (Value.string job.type)
      (field "payload" (object_of job.payload) (field "timeout_s" (number_of job.timeout_s) end)))

unfoldable pub job_fields : String → Fields
job_fields id = field "job_id" (Value.string id) end

unfoldable pub progress_fields : String → ℤ → String → Fields
progress_fields id percent message =
    field "job_id" (Value.string id)
      (field "percent" (number_of percent) (field "message" (Value.string message) end))

unfoldable pub completed_fields : String → Option Fields → Fields
completed_fields id result =
    field "job_id" (Value.string id)
      (field "status" (Value.string "completed") (field "result" (object_of result) end))

unfoldable pub failed_fields : String → String → Fields
failed_fields id error =
    field "job_id" (Value.string id)
      (field "status" (Value.string "failed") (field "error" (Value.string error) end))

unfoldable pub verified_fields : Bool → List String → ℤ → Fields
verified_fields done types capacity =
    field "ok" (Value.boolean done)
      (field "types" (Value.array (items_of types)) (field "capacity" (number_of capacity) end))

unfoldable pub binary_fields : String → String → Fields
binary_fields path mode = field "path" (Value.string path) (field "mode" (Value.string mode) end)

unfoldable pub status_fields : WorkerStatus → Fields
status_fields status = field "status" (Value.string (status_text status)) end

-- The last part of the topic and the map of each message.
unfoldable pub wire : Body → String × Fields
wire (Body.assignment job) = ("job:assign", assignment_fields job)
wire (Body.cancellation id) = ("job:cancel", job_fields id)
wire (Body.acknowledgement id) = ("job:ack", job_fields id)
wire (Body.progress id percent message) = ("job:progress", progress_fields id percent message)
wire (Body.success id result) = ("job:result", completed_fields id result)
wire (Body.failure id error) = ("job:result", failed_fields id error)
wire (Body.verification done types capacity) =
    ("worker:verified", verified_fields done types capacity)
wire (Body.binary path mode) = ("worker:binary", binary_fields path mode)
wire (Body.report status) = ("worker:status", status_fields status)
wire Body.pausing = ("worker:pause", field "action" (Value.string "pause") end)
wire Body.resuming = ("worker:resume", field "action" (Value.string "resume") end)
wire Body.shutdown = ("shutdown", field "reason" (Value.string "cluster closed") end)

unfoldable pub have_text : List String → Bool
have_text [] = true
have_text (s ∷ ss) = not (s == "") && have_text ss

-- What a worker sends: its jobs have ids, the types it read from its binary are not empty, the numbers
-- are below 2 ^ 53, and it reports only that it is paused or idle.
unfoldable pub is_from_worker : Body → Bool
is_from_worker (Body.acknowledgement id) = not (id == "")
is_from_worker (Body.progress id percent _) = not (id == "") && is_exact percent
is_from_worker (Body.success id _) = not (id == "")
is_from_worker (Body.failure id _) = not (id == "")
is_from_worker (Body.verification _ types capacity) = have_text types && is_exact capacity
is_from_worker (Body.binary _ _) = true
is_from_worker (Body.report WorkerStatus.paused) = true
is_from_worker (Body.report WorkerStatus.idle) = true
is_from_worker _ = false

-- What the host is meant to do on a worker's message.
unfoldable pub intended : Body → String → ℕ → Queue → Dispatcher → Queue × Dispatcher
intended (Body.acknowledgement id) from now q d = (mark_running q id, d)
intended (Body.progress id percent message) from now q d = (update_progress q id percent message, d)
intended (Body.success id result) from now q d =
    (complete q id result now, update_worker_status d from WorkerStatus.idle now)
intended (Body.failure id error) from now q d =
    (fail q id error now, update_worker_status d from WorkerStatus.idle now)
intended (Body.verification done types capacity) from now q d =
    (q, set_worker_verified d from done types capacity now)
intended (Body.binary path mode) from now q d = (q, set_worker_binary d from path mode now)
intended (Body.report status) from now q d = (q, update_worker_status d from status now)
intended _ from now q d = (q, d)

of_not : (b : Bool) → not b ≡ true → b ≡ false
of_not true h = cc
of_not false h = refl

and_parts : (a b : Bool) → (a && b) ≡ true → (a ≡ true) × (b ≡ true)
and_parts true b h = (refl, h)
and_parts false b h = cc

texts-items_of : (ss : List String) → have_text ss ≡ true → texts (items_of ss) ≡ ss
unfolding texts items_of have_text as_text
texts-items_of [] h = refl
texts-items_of (s ∷ ss) h =
    let (named, rest) = and_parts (not (s == "")) (have_text ss) h in
    rw (of_not (s == "") named) (ap (◌∷◌ s) (texts-items_of ss rest))

-- A host with a queue and a dispatcher does on each message that a worker sends, as it comes from the
-- wire, exactly what is meant: the fields that the handler reads are those that the sender wrote. The
-- ids of jobs are not empty, nor the types that the worker reports, its percentages and its capacity are
-- below 2 ^ 53 in magnitude, and the status it sends is paused or idle.
pub handle_host-wire :
    (b : Body) (m : Manager) (from : String) (now : ℕ) (q : Queue) (d : Dispatcher)
    → is_from_worker b ≡ true
    → let there = record m { queue = some q; dispatcher = some d } in
      let (topic, fields) = wire b in
      let (q', d') = intended b from now q d in
      handle_cluster_message Role.role_host there from topic (some fields) now
      ≡ ok (record m { queue = some q'; dispatcher = some d' })
unfolding wire job_fields progress_fields completed_fields failed_fields verified_fields
    binary_fields status_fields intended is_from_worker handle_cluster_message handle_host
    handle_result close_job change_queue with_queue with_dispatcher set_queue get as_text as_bool
    as_object as_texts object_of status_text worker_status
handle_host-wire (Body.acknowledgement id) m from now q d h = rw (of_not (id == "") h) refl
handle_host-wire (Body.progress id percent message) m from now q d h =
    let (named, exact) = and_parts (not (id == "")) (is_exact percent) h in
    rw (of_not (id == "") named, as_int-number_of percent exact) refl
handle_host-wire (Body.success id none) m from now q d h = rw (of_not (id == "") h) refl
handle_host-wire (Body.success id (some r)) m from now q d h = rw (of_not (id == "") h) refl
handle_host-wire (Body.failure id error) m from now q d h = rw (of_not (id == "") h) refl
handle_host-wire (Body.verification done types capacity) m from now q d h =
    let (named, exact) = and_parts (have_text types) (is_exact capacity) h in
    rw (texts-items_of types named, as_int-number_of capacity exact) refl
handle_host-wire (Body.binary path mode) m from now q d h = refl
handle_host-wire (Body.report WorkerStatus.paused) m from now q d h = refl
handle_host-wire (Body.report WorkerStatus.idle) m from now q d h = refl
handle_host-wire (Body.report WorkerStatus.joined) m from now q d h = cc
handle_host-wire (Body.report WorkerStatus.verified) m from now q d h = cc
handle_host-wire (Body.report WorkerStatus.busy) m from now q d h = cc
handle_host-wire (Body.report WorkerStatus.offline) m from now q d h = cc
handle_host-wire (Body.report (WorkerStatus.other _)) m from now q d h = cc
handle_host-wire (Body.assignment job) m from now q d h = cc
handle_host-wire (Body.cancellation _) m from now q d h = cc
handle_host-wire Body.pausing m from now q d h = cc
handle_host-wire Body.resuming m from now q d h = cc
handle_host-wire Body.shutdown m from now q d h = cc

unfoldable pub is_from_host : Body → Bool
is_from_host (Body.assignment job) = is_exact job.timeout_s
is_from_host (Body.cancellation id) = not (id == "")
is_from_host Body.pausing = true
is_from_host Body.resuming = true
is_from_host _ = false

-- The part of a job that an assignment carries.
unfoldable pub carried : Job → Job
carried job = record job { mode = ""; priority = pos 0; max_retry = pos 0 }

-- What the worker is meant to do on a message of its host.
unfoldable pub obeyed : Body → String → ℕ → Worker → Worker
obeyed (Body.assignment job) from now w = handle_job w from (carried job) now
obeyed (Body.cancellation id) from now w = cancel w id
obeyed Body.pausing from now w = pause w
obeyed Body.resuming from now w = resume w
obeyed _ from now w = w

as_object-object_of : (fs : Option Fields) → as_object (object_of fs) ≡ fs
unfolding as_object object_of
as_object-object_of none = refl
as_object-object_of (some fs) = refl

-- A worker does on each assignment, cancellation (of an id that is not empty), pause and resume of its
-- host, as it comes from the wire, exactly what is meant: it gets the id, the type, the payload and the
-- time limit (below 2 ^ 53) of the job that the host assigned.
pub handle_worker-wire :
    (b : Body) (m : Manager) (from : String) (now : ℕ) (w : Worker)
    → is_from_host b ≡ true
    → let (topic, fields) = wire b in
      handle_cluster_message Role.role_worker
        (record m { worker = some w })
        from
        topic
        (some fields)
        now
      ≡ ok (record m { worker = some (obeyed b from now w) })
unfolding wire assignment_fields job_fields obeyed is_from_host carried handle_cluster_message
    handle_worker change_worker received_job get as_text
handle_worker-wire (Body.assignment job) m from now w h =
    rw (as_object-object_of job.payload, as_int-number_of job.timeout_s h) refl
handle_worker-wire (Body.cancellation id) m from now w h = rw (of_not (id == "") h) refl
handle_worker-wire Body.pausing m from now w h = refl
handle_worker-wire Body.resuming m from now w h = refl
handle_worker-wire Body.shutdown m from now w h = cc
handle_worker-wire (Body.acknowledgement _) m from now w h = cc
handle_worker-wire (Body.progress _ _ _) m from now w h = cc
handle_worker-wire (Body.success _ _) m from now w h = cc
handle_worker-wire (Body.failure _ _) m from now w h = cc
handle_worker-wire (Body.verification _ _ _) m from now w h = cc
handle_worker-wire (Body.binary _ _) m from now w h = cc
handle_worker-wire (Body.report _) m from now w h = cc
