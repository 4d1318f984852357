-- ===== src/Cluster/Queue/Invariant.antt =====
-- The invariant of the queue of internal/group_types/cluster/queue.go, and what a call leaves alone.
use goop.Base.{Bool, false, String, List, [], ◌∷◌, ◌≡◌, ◌≢◌, refl, arith, eq_iff}
use goop.Base.Map.{
  Map, lookup, Each, IsDistinct, insert-IsDistinct, erase-IsDistinct, Each-insert, Each-erase,
  lookup-insert, lookup-erase,
}
use goop.Cluster.Types.{JobState}
use goop.Cluster.Queue.{Queue}
use goop.Cluster.Queue.Calls.{
  Call, is_clear, step, run, target, IsValid, Change, same, put, drop, empty, step-Change,
}

abbrev ValidJobs : Map JobState → Type 0
ValidJobs m = IsDistinct m × Each (λ id js. js.job.id ≡ id) m

Change-ValidJobs :
    {m : Map JobState} {id : String} {all : Bool} {n : Map JobState}
    → Change m id all n
    → ValidJobs m
    → ValidJobs n
Change-ValidJobs same v = v
Change-ValidJobs {m} {id = id} (put js e) v =
    (insert-IsDistinct id js m v.0, Each-insert _ id js m v.1 e)
Change-ValidJobs {m} {id = id} drop v = (erase-IsDistinct id m v.0, Each-erase _ id m v.1)
Change-ValidJobs (empty _) v = (tt, tt)

-- Every call keeps the map's keys distinct and each job under its own id.
pub step-IsValid : (q : Queue) (c : Call) → IsValid q → IsValid (step q c)
step-IsValid q c v =
    let w = Change-ValidJobs (step-Change q c v) (v.distinct, v.keyed) in
    record { distinct = w.0; keyed = w.1 }

pub run-IsValid : (q : Queue) (cs : List Call) → IsValid q → IsValid (run q cs)
unfolding run
run-IsValid q [] v = v
run-IsValid q (c ∷ cs) v = run-IsValid (step q c) cs (step-IsValid q c v)

Change-lookup :
    (j : String) {m : Map JobState} {id : String} {all : Bool} {n : Map JobState}
    → Change m id all n
    → j ≢ id
    → all ≡ false
    → lookup j n ≡ lookup j m
Change-lookup j same other kept = refl
Change-lookup j {m} {id = id} (put js e) other kept =
    ground (arith, lookup-insert id j js m, eq_iff id j)
Change-lookup j {m} {id = id} drop other kept = ground (arith, lookup-erase id j m, eq_iff id j)
Change-lookup j (empty e) other kept = cc

-- A call other than `clears` leaves every job but its own as it was.
pub lookup-step_ne :
    (q : Queue) (c : Call) (j : String)
    → IsValid q
    → is_clear c ≡ false
    → j ≢ target c
    → lookup j (step q c).jobs ≡ lookup j q.jobs
lookup-step_ne q c j v kept other = Change-lookup j (step-Change q c v) other kept
