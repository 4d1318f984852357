-- ===== src/Cluster/Manager/Stale.antt =====
-- internal/group_types/cluster/messages.go, handleClusterMessage: the role is read under the lock,
-- but the queue is used after the lock was given back.
use goop.Base.{ℕ, String, some, false, ◌≡◌, refl, ◌==◌, err}
use goop.Base.Json.{Fields, get, as_text}
use goop.Cluster.Dispatcher.{Fault}
use goop.Cluster.Manager.{Manager, Role, Failure, cleanup, leave_cluster, with_queue}
use goop.Cluster.Manager.Messages.{handle_cluster_message, handle_host, change_queue}

-- When a host leaves the cluster after the handler read its role, an acknowledgement of a job whose id is
-- not empty makes the handler dereference nil, whatever the manager held.
pub stale_role-panics :
    (m : Manager) (from : String) (fields : Fields) (now : ℕ)
    → (as_text (get "job_id" fields) == "") ≡ false
    → handle_cluster_message Role.role_host (leave_cluster m) from "job:ack" (some fields) now
      ≡ err (Failure.panic Fault.nil_dereference)
unfolding handle_cluster_message handle_host leave_cluster cleanup change_queue with_queue
stale_role-panics m from fields now h = rw h refl
