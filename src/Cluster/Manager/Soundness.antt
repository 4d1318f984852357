-- ===== src/Cluster/Manager/Soundness.antt =====
-- internal/group_types/cluster/{manager,messages,handler}.go: the parts that a manager has in each
-- role.
use goop.Base.{
  ℕ, String, Option, none, some, Bool, true, false, if◌then◌else◌, ◌==◌, Result, ok, err, ◌≡◌, refl,
  ap,
}
use goop.Base.Json.{Fields, get, as_text}
use goop.Cluster.Queue.{Queue}
use goop.Cluster.Dispatcher.{Dispatcher, Fault}
use goop.Cluster.Worker.{Worker}
use goop.Cluster.Manager.{
  Manager, Role, Failure, is_host, is_worker, with_queue, with_dispatcher, set_queue,
}
use goop.Cluster.Manager.Messages.{
  change_queue, close_job, handle_result, handle_host, change_worker, handle_worker,
}

unfoldable pub fits : Role → Option Queue → Option Dispatcher → Option Worker → Bool
fits Role.role_host (some _) (some _) none = true
fits Role.role_worker none none (some _) = true
fits Role.role_none none none none = true
fits _ _ _ _ = false

-- A host has a queue and a dispatcher, a worker has its worker, and nobody has more.
unfoldable pub is_coherent : Manager → Bool
is_coherent m = fits m.role m.queue m.dispatcher m.worker

-- The call does not panic, and leaves a coherent manager.
unfoldable pub goes_well : Result Failure Manager → Bool
goes_well (ok m) = is_coherent m
goes_well (err (Failure.panic _)) = false
goes_well (err _) = true

pub record IsWell (r : Result Failure Manager) : Type 0 where
  pub well : goes_well r ≡ true

pub record IsHost (m : Manager) : Type 0 where
  pub queue : Queue
  pub dispatcher : Dispatcher
  pub as_host : m.role ≡ Role.role_host
  pub has_queue : m.queue ≡ some queue
  pub has_dispatcher : m.dispatcher ≡ some dispatcher
  pub no_worker : m.worker ≡ none

host_parts :
    (r : Role) (q : Option Queue) (d : Option Dispatcher) (w : Option Worker)
    → fits r q d w ≡ true
    → is_host r ≡ true
    → (q' : Queue) × (d' : Dispatcher) × (r ≡ Role.role_host)
      × (q ≡ some q')
      × (d ≡ some d')
      × (w ≡ none)
unfolding fits is_host
host_parts Role.role_host (some q) (some d) none h e = (q, d, refl, refl, refl, refl)
host_parts Role.role_host (some q) (some d) (some w) h e = cc
host_parts Role.role_host none d w h e = cc
host_parts Role.role_host (some q) none w h e = cc
host_parts Role.role_none q d w h e = cc
host_parts Role.role_worker q d w h e = cc

pub IsHost-of : (m : Manager) → is_coherent m ≡ true → is_host m.role ≡ true → IsHost m
unfolding is_coherent
IsHost-of m h e =
    let (q, d, a, b, c, f) = host_parts m.role m.queue m.dispatcher m.worker h e in
    record {
      queue = q;
      dispatcher = d;
      as_host = a;
      has_queue = b;
      has_dispatcher = c;
      no_worker = f;
    }

worker_parts :
    (r : Role) (q : Option Queue) (d : Option Dispatcher) (w : Option Worker)
    → fits r q d w ≡ true
    → is_worker r ≡ true
    → (w' : Worker) × (r ≡ Role.role_worker) × (q ≡ none) × (d ≡ none) × (w ≡ some w')
unfolding fits is_worker
worker_parts Role.role_worker none none (some w) h e = (w, refl, refl, refl, refl)
worker_parts Role.role_worker none none none h e = cc
worker_parts Role.role_worker none (some d) w h e = cc
worker_parts Role.role_worker (some q) d w h e = cc
worker_parts Role.role_none q d w h e = cc
worker_parts Role.role_host q d w h e = cc

pub record IsWorker (m : Manager) : Type 0 where
  pub worker : Worker
  pub as_worker : m.role ≡ Role.role_worker
  pub no_queue : m.queue ≡ none
  pub no_dispatcher : m.dispatcher ≡ none
  pub has_worker : m.worker ≡ some worker

pub IsWorker-of : (m : Manager) → is_coherent m ≡ true → is_worker m.role ≡ true → IsWorker m
unfolding is_coherent
IsWorker-of m h e =
    let (w, a, b, c, d) = worker_parts m.role m.queue m.dispatcher m.worker h e in
    record { worker = w; as_worker = a; no_queue = b; no_dispatcher = c; has_worker = d }

pub IsWell-if :
    (b : Bool) (x y : Result Failure Manager) → IsWell x → IsWell y → IsWell (if b then x else y)
IsWell-if true x y h g = h
IsWell-if false x y h g = g

pub dispatcher-IsWell :
    (m : Manager) (f : Dispatcher → Dispatcher) → IsHost m → IsWell (with_dispatcher m f)
unfolding goes_well is_coherent fits with_dispatcher
dispatcher-IsWell m f p =
    rw (p.has_dispatcher, p.as_host, p.has_queue, p.no_worker) (record { well = refl })

pub queue-IsWell : (m : Manager) (q : Queue) → IsHost m → IsWell (ok (set_queue m q))
unfolding goes_well is_coherent fits set_queue
queue-IsWell m q p = rw (p.has_dispatcher, p.as_host, p.no_worker) (record { well = refl })

pub with_queue-IsWell :
    (m : Manager) (f : Queue → Result Failure Manager)
    → IsHost m
    → ((q : Queue) → IsWell (f q))
    → IsWell (with_queue m f)
unfolding with_queue
with_queue-IsWell m f p h = rw p.has_queue (h p.queue)

pub set_queue-IsHost : (m : Manager) (q : Queue) → IsHost m → IsHost (set_queue m q)
unfolding set_queue
set_queue-IsHost m q p = record {
  queue = q;
  dispatcher = p.dispatcher;
  as_host = p.as_host;
  has_queue = refl;
  has_dispatcher = p.has_dispatcher;
  no_worker = p.no_worker;
}

change_queue-IsWell : (m : Manager) (f : Queue → Queue) → IsHost m → IsWell (change_queue m f)
unfolding change_queue
change_queue-IsWell m f p = with_queue-IsWell m _ p (λ q. queue-IsWell m (f q) p)

with_queue_of : Manager → (Queue → Queue) → Option Queue → Result Failure Manager
with_queue_of m f q = elim q [
  | none ↦ err (Failure.panic Fault.nil_dereference)
  | some q' ↦ ok (set_queue m (f q'))
]

close_job-IsWell :
    (m : Manager) (from : String) (now : ℕ) (f : Queue → Queue)
    → IsHost m
    → IsWell (close_job m from now f)
unfolding close_job change_queue with_queue with_queue_of
close_job-IsWell m from now f p =
    let there : change_queue m f ≡ ok (set_queue m (f p.queue)) =
      ap (λ q. with_queue_of m f q) p.has_queue in
    rw (there, close_job) (dispatcher-IsWell _ _ (set_queue-IsHost m (f p.queue) p))

host_coherent : (m : Manager) → IsHost m → is_coherent m ≡ true
unfolding is_coherent fits
host_coherent m p = rw (p.has_dispatcher, p.as_host, p.has_queue, p.no_worker) refl

pub host-IsWell : (m : Manager) → IsHost m → IsWell (ok m)
unfolding goes_well
host-IsWell m p = record { well = host_coherent m p }

pub handle_host-IsWell :
    (m : Manager) (from msg_type : String) (fields : Fields) (now : ℕ)
    → IsHost m
    → IsWell (handle_host m from msg_type fields now)
unfolding handle_host handle_result
handle_host-IsWell m from msg_type fields now p =
    let same = host-IsWell m p in
    let id = as_text (get "job_id" fields) in
    let status = as_text (get "status" fields) in
    IsWell-if (msg_type == "job:ack") _ _
      (IsWell-if (id == "") _ _ same (change_queue-IsWell m _ p))
      (IsWell-if (msg_type == "job:result") _ _
        (IsWell-if (id == "") _ _ same (
          IsWell-if (status == "completed") _ _ (close_job-IsWell m from now _ p)
            (IsWell-if (status == "failed") _ _ (close_job-IsWell m from now _ p) same)))
        (IsWell-if (msg_type == "job:progress") _ _
          (IsWell-if (id == "") _ _ same (change_queue-IsWell m _ p))
          (IsWell-if (msg_type == "worker:verified") _ _ (dispatcher-IsWell m _ p) (
            IsWell-if (msg_type == "worker:binary") _ _ (dispatcher-IsWell m _ p)
              (IsWell-if (msg_type == "worker:status") _ _ (dispatcher-IsWell m _ p) same)))))

worker_coherent : (m : Manager) → IsWorker m → is_coherent m ≡ true
unfolding is_coherent fits
worker_coherent m p = rw (p.no_dispatcher, p.as_worker, p.no_queue, p.has_worker) refl

pub new_worker-IsWell :
    (m : Manager) (w : Worker) → IsWorker m → is_coherent (record m { worker = some w }) ≡ true
unfolding is_coherent fits
new_worker-IsWell m w p = rw (p.no_dispatcher, p.as_worker, p.no_queue) refl

change_worker-IsWell : (m : Manager) (f : Worker → Worker) → IsWorker m → IsWell (change_worker m f)
unfolding change_worker goes_well
change_worker-IsWell m f p = rw p.has_worker (record { well = new_worker-IsWell m (f p.worker) p })

pub worker-IsWell : (m : Manager) → IsWorker m → IsWell (ok m)
unfolding goes_well
worker-IsWell m p = record { well = worker_coherent m p }

pub handle_worker-IsWell :
    (m : Manager) (from msg_type : String) (fields : Fields) (now : ℕ)
    → IsWorker m
    → IsWell (handle_worker m from msg_type fields now)
unfolding handle_worker
handle_worker-IsWell m from msg_type fields now p =
    let same = worker-IsWell m p in
    let id = as_text (get "job_id" fields) in
    IsWell-if (msg_type == "job:assign") _ _ (change_worker-IsWell m _ p) (
      IsWell-if (msg_type == "job:cancel") _ _
        (IsWell-if (id == "") _ _ same (change_worker-IsWell m _ p))
        (IsWell-if (msg_type == "worker:pause") _ _ (change_worker-IsWell m _ p)
          (IsWell-if (msg_type == "worker:resume") _ _ (change_worker-IsWell m _ p) same)))
