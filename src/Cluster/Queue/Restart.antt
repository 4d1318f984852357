-- ===== src/Cluster/Queue/Restart.antt =====
-- NewQueue of internal/group_types/cluster/queue.go: what a host finds after a restart.
use mathlib.Core.Option
use goop.Base.{
  String, [], ◌∷◌, Option, none, some, ◌≡◌, refl, arith, eq_iff, ◌==◌, if◌then◌else◌, ◌∙◌, ap,
}
use goop.Base.Map.{Map, lookup, insert, Each, IsDistinct, lookup-insert}
use goop.Cluster.Types.{JobState, JobStatus, is_on_worker}
use goop.Cluster.Store.{JobStore, Row, on_disk, states_of, load_jobs}
use goop.Cluster.Queue.{Queue, recover, restore, restore_all, loaded_jobs, new_queue}
use goop.Cluster.Queue.Calls.{jobs-persist}
use goop.Cluster.Queue.Persistence.{Mirrors, Agrees}

jobs-restore :
    (q : Queue) (js : JobState) → (restore q js).jobs ≡ insert js.job.id (recover js) q.jobs
unfolding restore
jobs-restore q js = ground (arith, jobs-persist (recover js) q)

-- What the loop leaves under an id that held `before`, given the row of that id.
abbrev loaded : String → Option JobState → Option Row → Option JobState
loaded g before none = before
loaded g before (some r) = if r.group_id == g then some (recover r.state) else before

lookup-restore_all :
    (g id : String) (rows : Map Row) (q : Queue)
    → IsDistinct rows
    → Each (λ id r. r.state.job.id ≡ id) rows
    → lookup id (restore_all q (states_of g rows)).jobs
      ≡ loaded g (lookup id q.jobs) (lookup id rows)
unfolding restore_all states_of lookup
lookup-restore_all g id [] q d k = refl
lookup-restore_all g id ((j, r) ∷ rows) q d k = ground (
  arith,
  eq_iff j id,
  jobs-restore q r.state,
  lookup-insert r.state.job.id id (recover r.state) q.jobs,
  lookup-restore_all g id rows q d.1 k.1,
  lookup-restore_all g id rows (restore q r.state) d.1 k.1,
)

Agrees-loaded :
    (g : String) (o : Option JobState) (r : Option Row)
    → Agrees g o r
    → loaded g none r ≡ Option.map (λ js. recover (on_disk js)) o
Agrees-loaded g none none a = refl
Agrees-loaded g none (some r) a = rw a
Agrees-loaded g (some js) r a = rw a (ground (arith, eq_iff g g))

-- What a host is meant to find of a job that had the status: an independent description.
abbrev pub found_again : JobStatus → JobState → JobState
found_again JobStatus.assigned js = record js { status = JobStatus.pending; worker_id = "" }
found_again JobStatus.running js = record js { status = JobStatus.pending; worker_id = "" }
found_again JobStatus.pending js = js
found_again JobStatus.completed js = js
found_again JobStatus.failed js = js
found_again JobStatus.cancelled js = js
found_again (JobStatus.unknown _) js = js

recovered :
    (status : JobStatus) (js : JobState)
    → (if is_on_worker status then record js { status = JobStatus.pending; worker_id = "" } else js)
      ≡ found_again status js
unfolding is_on_worker
recovered JobStatus.assigned js = refl
recovered JobStatus.running js = refl
recovered JobStatus.pending js = refl
recovered JobStatus.completed js = refl
recovered JobStatus.failed js = refl
recovered JobStatus.cancelled js = refl
recovered (JobStatus.unknown _) js = refl

map-recover :
    (o : Option JobState)
    → Option.map (λ js. recover (on_disk js)) o
      ≡ Option.map (λ js. found_again js.status (on_disk js)) o
unfolding recover on_disk
map-recover none = refl
map-recover (some js) = ap some (recovered js.status (on_disk js))

-- A host that goes down with the store in step with its queue finds exactly its jobs again, as the
-- table kept them: those that were assigned or running are pending, at no worker, and all others have
-- the status that they had.
pub lookup-new_queue :
    (q : Queue) (s : JobStore) (id : String)
    → Mirrors q s
    → lookup id (new_queue (some s) q.group_id).jobs
      ≡ Option.map (λ js. found_again js.status (on_disk js)) (lookup id q.jobs)
unfolding new_queue loaded_jobs load_jobs lookup
lookup-new_queue q s id m =
    rw (m.grouped, m.works)
      (lookup-restore_all q.group_id id s.rows _ m.table.distinct m.table.keyed
        ∙ Agrees-loaded q.group_id (lookup id q.jobs) (lookup id s.rows) (m.agrees id))
    ∙ map-recover (lookup id q.jobs)
