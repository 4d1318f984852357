-- ===== src/Cluster/Worker/Quiet.antt =====
-- internal/group_types/cluster/worker.go: the jobs that the worker keeps and its status, against the
-- goroutines that run.
use goop.Base.{
  ℕ, ◌+◌, Bool, true, false, String, List, [], ◌∷◌, none, some, ◌==◌, Result, ok, err, ◌≡◌, refl,
  arith, Bool-cases, Option-cases, Result-cases, inl, inr, not, ◌&&◌, sym, ◌∙◌, eq_iff, ap, subst,
  ◌≢◌,
}
use goop.Base.Lists.{get_elem?}
use goop.Base.Map.{Map, lookup, insert, erase, lookup-insert, lookup-erase}
use goop.Base.Int.{pos}
use goop.Base.Json.{Fields, get, as_texts}
use goop.Cluster.Types.{WorkerStatus}
use goop.Cluster.Dispatcher.{Body, is_idle, is_paused}
use goop.Cluster.Worker.{
  Worker, Run, ActiveJob, Event, new_worker, send_to, default_mode, set_binary, set_verified,
  verify, checked_capacity, remove_at, send_verified, reannounce, Task, do_task, run_task,
  handle_job, report_progress, idle_if_free, run_job, cancel, pause, resume, close, kept, step,
  steps, has_none,
}
use goop.Cluster.Worker.Answers.{one_if, flying, flying-cancel_context, flying-remove_at, Nat-cases}

unfoldable pub is_busy : WorkerStatus → Bool
is_busy WorkerStatus.busy = true
is_busy _ = false

-- A job that is kept is run by some goroutine, and a busy worker keeps a job.
pub record IsSound (w : Worker) : Type 0 where
  pub tracked : (id : String) → flying id w.runs ≡ 0 → lookup id w.jobs ≡ none
  pub occupied : (is_busy w.status && has_none w.jobs) ≡ false

and_false : (b : Bool) → (b && false) ≡ false
and_false true = refl
and_false false = refl

idle_if_free-IsSound :
    (w : Worker)
    → ((id : String) → flying id w.runs ≡ 0 → lookup id w.jobs ≡ none)
    → IsSound (idle_if_free w)
unfolding idle_if_free is_busy
idle_if_free-IsSound w t = elim (Bool-cases (has_none w.jobs)) [
  | inl e ↦ rw e (record { tracked = t; occupied = refl })
  | inr e ↦ rw e (record { tracked = t; occupied = rw e (and_false (is_busy w.status)) })
]

absurd_one : (n : ℕ) → 1 + n ≢ 0
absurd_one n e = omega arith

tracked-insert :
    (id : String) (r : Run) (a : ActiveJob) (rs : List Run) (m : Map ActiveJob)
    → (flying id rs ≡ 0 → lookup id m ≡ none)
    → flying id (r ∷ rs) ≡ 0
    → lookup id (insert r.job.id a m) ≡ none
unfolding flying
tracked-insert id r a rs m t z = elim (Bool-cases (r.job.id == id)) [
  | inl e ↦
      let one : one_if true + flying id rs ≡ 0 = subst (λ b. one_if b + flying id rs ≡ 0) e z in
      elim (absurd_one (flying id rs) one) [ ]
  | inr e ↦
      let rest : flying id rs ≡ 0 = omega (arith, z) in
      rw (lookup-insert r.job.id id a m, e) (t rest)
]

tracked-erase :
    (id : String) (i : ℕ) (r : Run) (rs : List Run) (m : Map ActiveJob)
    → (flying id rs ≡ 0 → lookup id m ≡ none)
    → get_elem? rs i ≡ some r
    → flying id (remove_at i rs) ≡ 0
    → lookup id (erase r.job.id m) ≡ none
tracked-erase id i r rs m t e z =
    let split : flying id rs ≡ one_if (r.job.id == id) + flying id (remove_at i rs) =
      flying-remove_at id i rs r e in
    elim (Bool-cases (r.job.id == id)) [
      | inl f ↦ rw (lookup-erase r.job.id id m, f) refl
      | inr f ↦
          let rest : flying id rs ≡ 0 = split ∙ rw f (omega (arith, z)) in
          rw (lookup-erase r.job.id id m, f) (t rest)
    ]

tracked-erase_any :
    (id j : String) (m : Map ActiveJob) → lookup id m ≡ none → lookup id (erase j m) ≡ none
tracked-erase_any id j m e = elim (Bool-cases (j == id)) [
  | inl f ↦ rw (lookup-erase j id m, f) refl
  | inr f ↦ rw (lookup-erase j id m, f) e
]

occupied-insert :
    (id : String) (a : ActiveJob) (m : Map ActiveJob) → has_none (insert id a m) ≡ false
unfolding insert has_none
occupied-insert id a [] = refl
occupied-insert id a ((j, b) ∷ m) = elim (Bool-cases (j == id)) [
  | inl e ↦ rw e refl
  | inr e ↦ rw e refl
]

absurd_busy : (w : Worker) → IsSound w → w.jobs ≡ [] → is_busy w.status ≡ false
absurd_busy w h e = elim (Bool-cases (is_busy w.status)) [
  | inl b ↦
      let both : (true && has_none {A = String × ActiveJob} []) ≡ false =
        subst (λ b. (b && has_none {A = String × ActiveJob} []) ≡ false) b
          (subst (λ m. (is_busy w.status && has_none m) ≡ false) e h.occupied) in
      unfold has_none in cc
  | inr b ↦ b
]

verified-IsSound :
    (w : Worker) (i : ℕ) (answer : Result String Fields)
    → IsSound w
    → IsSound (
        let w' = record w { checks = remove_at i w.checks } in
        elim answer [
          | err e ↦
              send_to w.host_peer_id (Body.verification false [] (pos 0)) (set_verified false w')
          | ok result ↦
              send_to w.host_peer_id
                (Body.verification true
                  (as_texts (get "types" result))
                  (checked_capacity (get "capacity" result)))
                (set_verified true w')
        ])
unfolding send_to set_verified is_busy
verified-IsSound w i (ok _) h = record { tracked = h.tracked; occupied = refl }
verified-IsSound w i (err _) h = record { tracked = h.tracked; occupied = refl }

verify-IsSound : (w : Worker) → IsSound w → IsSound (verify w)
unfolding verify
verify-IsSound w h = elim (Nat-cases w.checks_due) [
  | inl e ↦ rw (e, verify) h
  | inr (n, e) ↦ elim (Bool-cases (w.binary_path == "")) [
    | inl f ↦ rw (e, verify, f) (record { tracked = h.tracked; occupied = h.occupied })
    | inr f ↦ rw (e, verify, f) (record { tracked = h.tracked; occupied = h.occupied })
  ]
]

set_binary-IsSound :
    (w : Worker) (path mode : String) → IsSound w → IsSound (kept w (set_binary w path mode))
unfolding set_binary kept is_busy
set_binary-IsSound w path mode h = elim (Bool-cases (path == "")) [
  | inl e ↦ rw e h
  | inr e ↦
      elim (Bool-cases
        (not (default_mode mode == "oneshot") && not (default_mode mode == "daemon"))) [
          | inl f ↦ rw (e, f) h
          | inr f ↦ rw (e, f) (record { tracked = h.tracked; occupied = refl })
        ]
]

do_task-IsSound : (t : Task) (w : Worker) → IsSound w → IsSound (do_task t w)
unfolding do_task send_to
do_task-IsSound Task.reannounces w h =
    unfold reannounce in
    elim (Bool-cases (w.binary_path == "")) [
      | inl e ↦ rw e h
      | inr e ↦ rw e (record { tracked = h.tracked; occupied = h.occupied })
    ]
do_task-IsSound (Task.sets_saved path mode) w h = elim (Result-cases (set_binary w path mode)) [
  | inl (w', e) ↦
      let same : kept w (set_binary w path mode) ≡ w' = unfold kept in ap (kept w) e in
      let s : IsSound w' = subst IsSound same (set_binary-IsSound w path mode h) in
      rw (e, do_task) (record { tracked = s.tracked; occupied = s.occupied })
  | inr (_, e) ↦ rw (e, do_task) h
]

step-IsSound : (w : Worker) (e : Event) → IsSound w → IsSound (step w e)
unfolding step send_to send_verified report_progress run_job cancel run_task is_busy lookup
step-IsSound w (Event.binary_set path mode) h = set_binary-IsSound w path mode h
step-IsSound w Event.check_begins h = verify-IsSound w h
step-IsSound w (Event.check_ends i answer) h = elim (Option-cases (get_elem? w.checks i)) [
  | inl e ↦ rw (e, send_verified) h
  | inr (_, e) ↦ rw (e, send_verified) (verified-IsSound w i answer h)
]
step-IsSound w (Event.task_runs i) h = elim (Option-cases (get_elem? w.due i)) [
  | inl e ↦ rw (e, run_task) h
  | inr (t, e) ↦
      rw (e, run_task) (do_task-IsSound t _ (record { tracked = h.tracked; occupied = h.occupied }))
]
step-IsSound w (Event.job_arrives host job now) h =
    unfold handle_job in
    elim (Bool-cases (w.binary_path == "")) [
      | inl e ↦ rw e h
      | inr e ↦ rw e (record {
        tracked = λ id. tracked-insert id _ _ w.runs w.jobs (h.tracked id);
        occupied = occupied-insert job.id _ w.jobs;
      })
    ]
step-IsSound w (Event.progress_made i percent message) h =
    elim (Option-cases (get_elem? w.runs i)) [
      | inl e ↦ rw (e, report_progress) h
      | inr (_, e) ↦ rw (e, report_progress) (record { tracked = h.tracked; occupied = h.occupied })
    ]
step-IsSound w (Event.run_ends i answer) h = elim (Option-cases (get_elem? w.runs i)) [
  | inl e ↦ rw (e, run_job) h
  | inr (r, e) ↦
      rw (e, run_job)
        (idle_if_free-IsSound _ (λ id. tracked-erase id i r w.runs w.jobs (h.tracked id) e))
]
step-IsSound w (Event.cancelled j) h = elim (Option-cases (lookup j w.jobs)) [
  | inl e ↦ rw (e, cancel) (idle_if_free-IsSound w h.tracked)
  | inr (a, e) ↦
      rw (e, cancel)
        (idle_if_free-IsSound _ (λ id z.
          tracked-erase_any id j w.jobs
            (h.tracked id (sym (flying-cancel_context id a.context w.runs) ∙ z))))
]
step-IsSound w Event.paused h =
    unfold pause in
    elim (Bool-cases (is_idle w.status)) [
      | inl e ↦ rw e (record { tracked = h.tracked; occupied = refl })
      | inr e ↦ rw e (record { tracked = h.tracked; occupied = h.occupied })
    ]
step-IsSound w Event.resumed h =
    unfold resume in
    elim (Bool-cases (is_paused w.status)) [
      | inl e ↦ rw e (record { tracked = h.tracked; occupied = refl })
      | inr e ↦ rw e (record { tracked = h.tracked; occupied = h.occupied })
    ]
step-IsSound w Event.closed h = unfold close in record { tracked = λ id z. refl; occupied = refl }

steps-IsSound : (es : List Event) (w : Worker) → IsSound w → IsSound (steps w es)
unfolding steps
steps-IsSound [] w h = h
steps-IsSound (e ∷ es) w h = steps-IsSound es (step w e) (step-IsSound w e h)

no_jobs : (m : Map ActiveJob) → ((id : String) → lookup id m ≡ none) → m ≡ []
unfolding lookup
no_jobs [] h = refl
no_jobs ((j, a) ∷ m) h = ground (arith, h j, eq_iff j j)

new_worker-IsSound : (g h : String) → IsSound (new_worker g h)
unfolding new_worker is_busy lookup
new_worker-IsSound g h = record { tracked = λ id z. refl; occupied = refl }

-- Whatever calls come and in whatever order the goroutines go on: when no job runs any more, the
-- worker keeps no job and does not stand as busy.
pub steps-quiet :
    (group_id host_peer_id : String) (es : List Event)
    → (steps (new_worker group_id host_peer_id) es).runs ≡ []
    → let w = steps (new_worker group_id host_peer_id) es in
      (w.jobs ≡ []) × (is_busy w.status ≡ false)
steps-quiet group_id host_peer_id es none_left =
    let w = steps (new_worker group_id host_peer_id) es in
    let s = steps-IsSound es (new_worker group_id host_peer_id) (new_worker-IsSound _ _) in
    let nothing : w.jobs ≡ [] =
      no_jobs w.jobs (λ id. s.tracked id (ap (flying id) none_left ∙ unfold flying in refl)) in
    (nothing, absurd_busy w s nothing)
