-- ===== src/Tests/ClusterManager.antt =====
-- internal/group_types/cluster/{manager,messages,handler}.go on concrete inputs.
use goop.Base.{◌≡◌, refl, true, false, none, arith, List, [], ◌∷◌, some, ok, err}
use goop.Base.Json.{Value, end, field, as_text, get}
use goop.Base.Int.{pos}
use goop.Base.Map.{lookup}
use goop.Cluster.Types.{WorkerInfo}
use goop.Cluster.Store.{JobStore}
use goop.Cluster.Queue.{Queue}
use goop.Cluster.Dispatcher.{
  Body, Fault, Dispatcher, new_dispatcher, is_eligible, is_empty, slice_contains,
}
use goop.Cluster.Manager.{Role, Failure, new_manager, leave_cluster}
use goop.Cluster.Manager.Messages.{handle_cluster_message}
use goop.Cluster.Manager.Calls.{Call, set_up}
use goop.Cluster.Manager.NoPanic.{Ends, calls-go_well}
use goop.Cluster.Manager.Stale.{stale_role-panics}
use goop.Cluster.Manager.Wire.{wire, is_from_worker, intended, handle_host-wire}
use goop.Tests.ClusterQueue.{job, queue}
use goop.Tests.ClusterDispatcher.{dead, staff, worker}
use goop.Cluster.Manager.Overload.{result_frees_all}

-- An empty database.
abbrev disk : JobStore
disk = record { works = true; rows = [] }

abbrev hosting : List Call
hosting =
    Call.creates "g"
    ∷ Call.hears (record { type = "join"; group = "g"; from = "w" }) 4
    ∷ Call.submits (job "a" 1) "x" 5
    ∷ Call.cancels "a" 6
    ∷ Call.cancels "a" 7
    ∷ Call.receives "w" ("cluster" ∷ "g" ∷ "job:ack" ∷ [])
        (some (field "job_id" (Value.string "a") end)) 8
    ∷ Call.receives "w" ("cluster" ∷ "g" ∷ "worker:verified" ∷ [])
        (some (field "ok" (Value.boolean true) end)) 9
    ∷ Call.submits (job "b" 2) "y" 10
    ∷ Call.dispatches dead
    ∷ Call.dispatches dead
    ∷ Call.leaves
    ∷ Call.saves "/bin/w" "daemon"
    ∷ Call.joins "k" "h"
    ∷ []

calls-go_well_example : Ends (set_up "me" (some disk) "/bin/w" "oneshot") hosting
calls-go_well_example = calls-go_well hosting "me" (some disk) "/bin/w" "oneshot"

stale_role-panics_example :
    handle_cluster_message Role.role_host
      (leave_cluster (new_manager "me"))
      "w"
      "job:ack"
      (some (field "job_id" (Value.string "a") end))
      3
    ≡ err (Failure.panic Fault.nil_dereference)
unfolding as_text get
stale_role-panics_example =
    stale_role-panics (new_manager "me") "w" (field "job_id" (Value.string "a") end) 3 refl

abbrev result : Body
result = Body.success "a" (some (field "answer" (Value.boolean true) end))

handle_host-wire_example :
    let there = record (new_manager "me") {
      queue = some queue;
      dispatcher = some new_dispatcher;
    } in
    let (topic, fields) = wire result in
    let (q', d') = intended result "w" 9 queue new_dispatcher in
    handle_cluster_message Role.role_host there "w" topic (some fields) 9
    ≡ ok (record (new_manager "me") { queue = some q'; dispatcher = some d' })
unfolding is_from_worker
handle_host-wire_example =
    handle_host-wire result (new_manager "me") "w" 9 queue new_dispatcher refl

result_frees_all_example :
    let (topic, fields) = wire (Body.success "a" none) in
    (is_eligible "search" (worker "y" 2) ≡ false)
    × (q : Queue) × (d : Dispatcher) × (w : WorkerInfo) × (handle_cluster_message Role.role_host
          (record (new_manager "me") { queue = some queue; dispatcher = some staff })
          "y"
          topic
          (some fields)
          9
        ≡ ok (record (new_manager "me") { queue = some q; dispatcher = some d }))
    × (lookup "y" d.workers ≡ some w)
    × (w.running_jobs ≡ pos 0)
    × (is_eligible "search" w ≡ true)
unfolding lookup is_empty slice_contains
result_frees_all_example =
    result_frees_all (new_manager "me") queue staff "y" "a" "search" none (worker "y" 2) 9 refl refl
      refl (omega arith) (omega arith) refl
