-- ===== src/Tests/ClusterWorker.antt =====
-- internal/group_types/cluster/worker.go on concrete inputs.
use goop.Base.{◌+◌, ◌≡◌, refl, false, List, [], ◌∷◌, ok, err}
use goop.Base.Json.{end}
use goop.Base.Map.{lookup, insert, erase}
use goop.Cluster.Worker.{
  Event, new_worker, steps, step, run_job, cancel, handle_job, send_verified, verify, kept,
  set_binary, default_mode, send_to, set_verified, idle_if_free, has_none, cancel_context,
  remove_at, result_body,
}
use goop.Cluster.Worker.Answers.{acks, results, tally, flying, steps-answers}
use goop.Cluster.Worker.Quiet.{is_busy, steps-quiet}
use goop.Tests.ClusterQueue.{job}

-- Two jobs arrive, one is cancelled, and both runs end.
abbrev day : List Event
day =
    Event.binary_set "/bin/w" ""
    ∷ Event.check_begins
    ∷ Event.check_ends 0 (ok end)
    ∷ Event.job_arrives "h" (job "a" 1) 5
    ∷ Event.job_arrives "h" (job "b" 2) 6
    ∷ Event.cancelled "a"
    ∷ Event.run_ends 1 (err "cancelled")
    ∷ Event.run_ends 0 (ok end)
    ∷ []

steps-answers_example :
    let w = steps (new_worker "g" "h") day in
    tally (acks "a") w.sent ≡ tally (results "a") w.sent + flying "a" w.runs
steps-answers_example = steps-answers "g" "h" day "a"

steps-quiet_example :
    let w = steps (new_worker "g" "h") day in (w.jobs ≡ []) × (is_busy w.status ≡ false)
unfolding steps step run_job cancel handle_job send_verified verify kept set_binary default_mode
    send_to set_verified new_worker idle_if_free has_none lookup insert erase cancel_context
    remove_at result_body
steps-quiet_example = steps-quiet "g" "h" day refl
