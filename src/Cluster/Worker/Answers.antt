-- ===== src/Cluster/Worker/Answers.antt =====
-- internal/group_types/cluster/worker.go: the acknowledgements and the results that a worker sends.
use goop.Base.{
  ℕ, zero, suc, ◌+◌, Bool, true, false, String, List, [], ◌∷◌, some, if◌then◌else◌, ◌==◌, Result,
  ok, err, eqb, ◌≡◌, refl, arith, Bool-cases, Option-cases, Result-cases, inl, inr, ◌⊎◌, not, ◌&&◌,
  ◌∙◌, ap, subst,
}
use goop.Base.Lists.{get_elem?}
use goop.Base.Map.{Map, lookup}
use goop.Base.Int.{pos}
use goop.Base.Json.{Fields, get, as_texts}
use goop.Cluster.Dispatcher.{Body, Message, is_idle, is_paused}
use goop.Cluster.Worker.{
  Worker, Run, ActiveJob, Event, new_worker, send_to, default_mode, set_binary, set_verified,
  verify, checked_capacity, remove_at, send_verified, reannounce, Task, do_task, run_task,
  handle_job, report_progress, idle_if_free, result_body, run_job, cancel_context, cancel, pause,
  resume, cancel_all, close, kept, step, steps, has_none,
}

abbrev pub one_if : Bool → ℕ
one_if b = if b then 1 else 0

-- 1 for an acknowledgement of the job `id`
unfoldable pub acks : String → Body → ℕ
acks id (Body.acknowledgement j) = one_if (j == id)
acks id _ = 0

-- 1 for a result of the job `id`
unfoldable pub results : String → Body → ℕ
results id (Body.success j _) = one_if (j == id)
results id (Body.failure j _) = one_if (j == id)
results id _ = 0

unfoldable pub tally : (Body → ℕ) → List Message → ℕ
tally f [] = 0
tally f (m ∷ ms) = f m.body + tally f ms

-- How many goroutines run the job `id`.
unfoldable pub flying : String → List Run → ℕ
flying id [] = 0
flying id (r ∷ rs) = one_if (r.job.id == id) + flying id rs

pub flying-cancel_context :
    (id : String) (n : ℕ) (rs : List Run) → flying id (cancel_context n rs) ≡ flying id rs
unfolding flying cancel_context
flying-cancel_context id n [] = refl
flying-cancel_context id n (r ∷ rs) = elim (Bool-cases (eqb r.context n)) [
  | inl e ↦ rw (e, flying-cancel_context id n rs) refl
  | inr e ↦ rw (e, flying-cancel_context id n rs) refl
]

pub flying-cancel_all :
    (id : String) (m : Map ActiveJob) (rs : List Run) → flying id (cancel_all m rs) ≡ flying id rs
unfolding cancel_all
flying-cancel_all id [] rs = refl
flying-cancel_all id ((_, a) ∷ m) rs =
    flying-cancel_all id m (cancel_context a.context rs) ∙ flying-cancel_context id a.context rs

pub flying-remove_at :
    (id : String) (i : ℕ) (rs : List Run) (r : Run)
    → get_elem? rs i ≡ some r
    → flying id rs ≡ one_if (r.job.id == id) + flying id (remove_at i rs)
unfolding flying remove_at
flying-remove_at id i [] r e = cc
flying-remove_at id zero (x ∷ rs) r e = cc
flying-remove_at id (suc i) (x ∷ rs) r e = omega (arith, flying-remove_at id i rs r e)

-- For the job `id`, the acknowledgements sent are the results sent and the runs under way.
unfoldable pub IsAnswered : String → Worker → Type 0
IsAnswered id w = tally (acks id) w.sent ≡ tally (results id) w.sent + flying id w.runs

idle_if_free-IsAnswered :
    (id : String) (w : Worker) → IsAnswered id w → IsAnswered id (idle_if_free w)
unfolding IsAnswered idle_if_free
idle_if_free-IsAnswered id w h = elim (Bool-cases (has_none w.jobs)) [
  | inl e ↦ rw e h
  | inr e ↦ rw e h
]

pub Nat-cases : (n : ℕ) → (n ≡ 0) ⊎ ((m : ℕ) × (n ≡ suc m))
Nat-cases zero = inl refl
Nat-cases (suc n) = inr (n, refl)

verified_lem :
    (id : String) (w : Worker) (i : ℕ) (answer : Result String Fields)
    → IsAnswered id w
    → IsAnswered id (
        let w' = record w { checks = remove_at i w.checks } in
        elim answer [
          | err e ↦
              send_to w.host_peer_id (Body.verification false [] (pos 0)) (set_verified false w')
          | ok result ↦
              send_to w.host_peer_id
                (Body.verification true
                  (as_texts (get "types" result))
                  (checked_capacity (get "capacity" result)))
                (set_verified true w')
        ])
unfolding IsAnswered send_to set_verified tally acks results
verified_lem id w i (ok _) h = omega arith
verified_lem id w i (err _) h = omega arith

verify_lem : (id : String) (w : Worker) → IsAnswered id w → IsAnswered id (verify w)
unfolding IsAnswered verify
verify_lem id w h = elim (Nat-cases w.checks_due) [
  | inl e ↦ rw e h
  | inr (n, e) ↦ elim (Bool-cases (w.binary_path == "")) [
    | inl f ↦ rw (e, f) h
    | inr f ↦ rw (e, f) h
  ]
]

run_ended :
    (id : String) (r : Run) (answer : Result String Fields) (a b f f' : ℕ)
    → a ≡ b + f
    → f ≡ one_if (r.job.id == id) + f'
    → acks id (result_body r.job answer) + a ≡ results id (result_body r.job answer) + b + f'
unfolding acks results result_body
run_ended id r (ok _) a b f f' h g = omega arith
run_ended id r (err _) a b f f' h g = omega arith

set_binary-IsAnswered :
    (id : String) (w : Worker) (path mode : String)
    → IsAnswered id w
    → IsAnswered id (kept w (set_binary w path mode))
unfolding IsAnswered set_binary kept
set_binary-IsAnswered id w path mode h = elim (Bool-cases (path == "")) [
  | inl e ↦ rw e h
  | inr e ↦
      elim (Bool-cases
        (not (default_mode mode == "oneshot") && not (default_mode mode == "daemon"))) [
          | inl f ↦ rw (e, f) h
          | inr f ↦ rw (e, f) h
        ]
]

do_task-IsAnswered :
    (id : String) (t : Task) (w : Worker) → IsAnswered id w → IsAnswered id (do_task t w)
unfolding IsAnswered do_task send_to tally acks results
do_task-IsAnswered id Task.reannounces w h =
    unfold reannounce in
    elim (Bool-cases (w.binary_path == "")) [ inl e ↦ rw e h | inr e ↦ rw e (omega arith) ]
do_task-IsAnswered id (Task.sets_saved path mode) w h =
    elim (Result-cases (set_binary w path mode)) [
      | inl (w', e) ↦
          let same : kept w (set_binary w path mode) ≡ w' = unfold kept in ap (kept w) e in
          let s : IsAnswered id w' =
            subst (IsAnswered id) same (set_binary-IsAnswered id w path mode h) in
          rw (e, do_task) (omega arith)
      | inr (_, e) ↦ rw (e, do_task) h
    ]

step-IsAnswered :
    (id : String) (w : Worker) (e : Event) → IsAnswered id w → IsAnswered id (step w e)
unfolding IsAnswered step send_to tally acks results send_verified report_progress run_job cancel
    run_task
step-IsAnswered id w (Event.binary_set path mode) h = set_binary-IsAnswered id w path mode h
step-IsAnswered id w Event.check_begins h = verify_lem id w h
step-IsAnswered id w (Event.check_ends i answer) h = elim (Option-cases (get_elem? w.checks i)) [
  | inl e ↦ rw (e, send_verified) h
  | inr (_, e) ↦ rw (e, send_verified) (verified_lem id w i answer h)
]
step-IsAnswered id w (Event.task_runs i) h = elim (Option-cases (get_elem? w.due i)) [
  | inl e ↦ rw (e, run_task) h
  | inr (t, e) ↦ rw (e, run_task) (do_task-IsAnswered id t _ h)
]
step-IsAnswered id w (Event.job_arrives host job now) h =
    unfold handle_job in
    elim (Bool-cases (w.binary_path == "")) [
      | inl e ↦ rw e h
      | inr e ↦ rw e (unfold flying in omega arith)
    ]
step-IsAnswered id w (Event.progress_made i percent message) h =
    elim (Option-cases (get_elem? w.runs i)) [
      | inl e ↦ rw (e, report_progress) h
      | inr (_, e) ↦ rw (e, report_progress) (omega arith)
    ]
step-IsAnswered id w (Event.run_ends i answer) h = elim (Option-cases (get_elem? w.runs i)) [
  | inl e ↦ rw (e, run_job) h
  | inr (r, e) ↦
      rw (e, run_job)
        (idle_if_free-IsAnswered id _
          (run_ended id r answer _ _ _ _ h (flying-remove_at id i w.runs r e)))
]
step-IsAnswered id w (Event.cancelled j) h = elim (Option-cases (lookup j w.jobs)) [
  | inl e ↦ rw (e, cancel) (idle_if_free-IsAnswered id w h)
  | inr (a, e) ↦
      rw (e, cancel)
        (idle_if_free-IsAnswered id _ (rw (flying-cancel_context id a.context w.runs) h))
]
step-IsAnswered id w Event.paused h =
    unfold pause in
    elim (Bool-cases (is_idle w.status)) [ inl e ↦ rw e (omega arith) | inr e ↦ rw e (omega arith) ]
step-IsAnswered id w Event.resumed h =
    unfold resume in
    elim (Bool-cases (is_paused w.status)) [
      | inl e ↦ rw e (omega arith)
      | inr e ↦ rw e (omega arith)
    ]
step-IsAnswered id w Event.closed h = unfold close in rw (flying-cancel_all id w.jobs w.runs) h

steps-IsAnswered :
    (id : String) (es : List Event) (w : Worker) → IsAnswered id w → IsAnswered id (steps w es)
unfolding steps
steps-IsAnswered id [] w h = h
steps-IsAnswered id (e ∷ es) w h = steps-IsAnswered id es (step w e) (step-IsAnswered id w e h)

-- Whatever calls come and in whatever order the goroutines go on, at any time each job has been
-- acknowledged exactly as often as it has been answered by a result or is still running: so when no
-- run of it is left, each acknowledgement has had its one result. This holds for cancelled jobs,
-- for jobs handed over twice and across a Close.
pub steps-answers :
    (group_id host_peer_id : String) (es : List Event) (id : String)
    → let w = steps (new_worker group_id host_peer_id) es in
      tally (acks id) w.sent ≡ tally (results id) w.sent + flying id w.runs
unfolding IsAnswered
steps-answers group_id host_peer_id es id =
    steps-IsAnswered id es (new_worker group_id host_peer_id)
      (unfold new_worker tally flying in refl)
