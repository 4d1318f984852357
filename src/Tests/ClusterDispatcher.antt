-- ===== src/Tests/ClusterDispatcher.antt =====
-- internal/group_types/cluster/dispatcher.go on concrete inputs.
use goop.Base.{ℕ, ◌+◌, ◌≡◌, refl, true, String, [], ◌∷◌, some, arith}
use goop.Base.Int.{pos, int_max, int_min}
use goop.Base.Lists.{length}
use goop.Base.Map.{Map, lookup, total}
use goop.Cluster.Types.{WorkerInfo, WorkerStatus, is_pending}
use goop.Cluster.Dispatcher.{Dispatcher, Env, Host, Outcome, dispatch}
use goop.Cluster.Dispatcher.Loop.{IsReady, IsQuiet, IsRanging, dispatch_ends}
use goop.Tests.ClusterQueue.{queue, queue-IsValid}

abbrev pub worker : String → ℕ → WorkerInfo
worker id running = record {
  peer_id = id;
  status = WorkerStatus.idle;
  binary_path = "/bin/w";
  binary_mode = "oneshot";
  is_verified = true;
  job_types = [];
  capacity = pos 2;
  running_jobs = pos running;
  last_seen = 1;
}

abbrev pub staff : Dispatcher
staff = record {
  workers = ("x", worker "x" 0) ∷ ("y", worker "y" 2) ∷ ("z", worker "z" 1) ∷ [];
  robin = pos 1;
}

abbrev host : Host
host = record { queue = queue; dispatcher = staff; sent = [] }

-- A network on which every send fails.
abbrev pub dead : Env
dead = record {
  send = λ _ _. some "no route";
  now = λ sent. 100 + length sent;
  visit = λ _ workers. workers;
}

dead-IsRanging : IsRanging dead
dead-IsRanging sent workers d = record { once = d; same = λ id. refl }

host-IsReady : IsReady host 1
unfolding lookup int_max int_min is_pending
host-IsReady = record {
  valid = queue-IsValid;
  counted = (λ _. omega arith, (λ _. omega arith, (λ _. omega arith, tt)));
  staffed = record { distinct = (refl, (refl, (refl, tt))); named = refl; within = omega arith };
  robin = refl;
}

dispatch_ends_example :
    (h : Host) × (k : ℕ) × (dispatch 10 dead "g" host ≡ Outcome.done h) × IsReady h k × IsQuiet h
unfolding total is_pending
dispatch_ends_example =
    dispatch_ends 10 dead "g" host 1 dead-IsRanging host-IsReady (omega arith) (omega arith)

abbrev x : String
x = "x"

abbrev z : String
z = "z"
