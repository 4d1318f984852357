-- ===== src/Cluster/Dispatcher/Loop.antt =====
-- The whole of dispatch in internal/group_types/cluster/dispatcher.go, round after round.
use goop.Base.{
  ℕ, zero, suc, ◌+◌, ◌<◌, ◌^◌, ◌-◌, true, false, String, List, none, some, ◌≡◌, ◌≢◌, ◌⊎◌, inl, inr,
  refl, arith, eq_iff, ◌==◌, Result, ok, err, Option-cases, ◌∙◌, subst,
}
use goop.Base.Int.{pos, ◌≤ℤ◌, ◌<ℤ◌, incr, int_max, int_min, incr_parts, decr-incr, incr-pos}
use goop.Base.Map.{
  Map, lookup, insert, IsDistinct, Each, lookup-insert_self, lookup-insert_ne, Each-lookup,
  Each-insert, insert-IsDistinct,
}
use goop.Cluster.Types.{Job, JobState, WorkerInfo, is_pending}
use goop.Cluster.Queue.{Queue, next_pending}
use goop.Cluster.Queue.Calls.{IsValid}
use goop.Cluster.Queue.Selection.{IsChoice, next_pending-IsChoice}
use goop.Cluster.Dispatcher.{
  Dispatcher, Env, Fault, Host, Message, Round, Outcome, is_eligible, on_worker, start_job,
  undo_job, hand_out, round, dispatch, assign_message,
}
use goop.Cluster.Dispatcher.Picking.{IsPick, IsOrder, pick_worker_for_type-IsPick}
use goop.Cluster.Dispatcher.Rounds.{IsCounted, Spends, budget, assign-Spends, fail-assign-Spends}

-- The number of jobs counted for a worker is an `int` and within the worker's capacity.
pub record IsWithin (w : WorkerInfo) : Type 0 where
  pub low : int_min ≤ℤ w.running_jobs
  pub fits : w.running_jobs ≤ℤ w.capacity
  pub high : w.capacity ≤ℤ int_max

pub record IsStaffed (m : Map WorkerInfo) : Type 0 where
  pub distinct : IsDistinct m
  pub named : lookup "" m ≡ none
  pub within : Each (λ _ w. IsWithin w) m

eligible_room :
    (t : String) (w : WorkerInfo) → is_eligible t w ≡ true → w.running_jobs <ℤ w.capacity
unfolding is_eligible
eligible_room t w h = ground arith

start_job-IsWithin :
    (w : WorkerInfo) → w.running_jobs <ℤ w.capacity → IsWithin w → IsWithin (start_job w)
start_job-IsWithin w h v =
    let small : w.running_jobs <ℤ int_max = omega arith in
    let up = incr_parts w.running_jobs small in
    record { low = omega arith; fits = omega arith; high = v.high }

undo_job-IsWithin :
    (w : WorkerInfo) → w.running_jobs <ℤ w.capacity → IsWithin w → IsWithin (undo_job (start_job w))
undo_job-IsWithin w h v =
    let small : w.running_jobs <ℤ int_max = omega arith in
    let back = decr-incr w.running_jobs small v.low in
    record { low = rw back v.low; fits = rw back v.fits; high = v.high }

module _ (x : String) (d : Dispatcher) (w : WorkerInfo) (e : lookup x d.workers ≡ some w) where
  on_worker-eq :
      (f : WorkerInfo → WorkerInfo)
      → on_worker x f d ≡ record d { workers = insert x (f w) d.workers }
  unfolding on_worker
  on_worker-eq f = rw (e, on_worker)

  insert-IsStaffed :
      (w' : WorkerInfo) → IsWithin w' → IsStaffed d.workers → IsStaffed (insert x w' d.workers)
  insert-IsStaffed w' p s =
      let other : "" ≢ x =
        λ q. ground (arith, s.named, e, subst (λ k. lookup k d.workers ≡ none) q s.named) in
      record {
        distinct = insert-IsDistinct x w' d.workers s.distinct;
        named = lookup-insert_ne x "" w' d.workers other ∙ s.named;
        within = Each-insert (λ _ w. IsWithin w) x w' d.workers s.within p;
      }

pub record IsReady (h : Host) (n : ℕ) : Type 0 where
  pub valid : IsValid h.queue
  pub counted : Each (λ _ js. IsCounted js) h.queue.jobs
  pub staffed : IsStaffed h.dispatcher.workers
  pub robin : h.dispatcher.robin ≡ pos n

-- Each `range` over workers visits each of them once.
abbrev pub IsRanging : Env → Type 0
IsRanging env =
    (sent : List Message) (workers : Map WorkerInfo)
    → IsDistinct workers
    → IsOrder (env.visit sent workers) workers

-- Nothing is pending, or nobody may take the job that is next.
abbrev pub IsQuiet : Host → Type 0
IsQuiet h =
    (next_pending h.queue ≡ none)
    ⊎ ((job : Job) × (next_pending h.queue ≡ some job)
        × ((id : String) (w : WorkerInfo)
            → lookup id h.dispatcher.workers ≡ some w
            → is_eligible job.type w ≡ false))

pick_cases :
    (d : Dispatcher) (t : String) (res : Result Fault (String × Dispatcher))
    → IsPick d t res
    → ((res ≡ ok ("", d))
        × ((id : String) (w : WorkerInfo) → lookup id d.workers ≡ some w → is_eligible t w ≡ false))
      ⊎ ((x : String) × (w : WorkerInfo) × (lookup x d.workers ≡ some w)
          × (is_eligible t w ≡ true)
          × (res ≡ ok (x, record d { robin = incr d.robin })))
pick_cases d t (err f) p = absurd p
pick_cases d t (ok (x, d')) (inl (e, same, none_fits)) = inl (cc, none_fits)
pick_cases d t (ok (x, d')) (inr (w, known, able, same)) = inr (x, w, known, able, cc)

module _ (env : Env) (ranging : IsRanging env) (g : String) (h : Host) (n : ℕ) (r : IsReady h n)
    (small : n < 2 ^ 63 - 1) where
  -- The dispatcher after the pick.
  moved : Dispatcher
  moved = record (h.dispatcher) { robin = incr h.dispatcher.robin }

  module _ (job : Job) (js : JobState) (x : String) (w : WorkerInfo)
      (found : lookup job.id h.queue.jobs ≡ some js) (p : is_pending js.status ≡ true)
      (known : lookup x h.dispatcher.workers ≡ some w) (able : is_eligible job.type w ≡ true) where
    started : Dispatcher
    started = record moved { workers = insert x (start_job w) h.dispatcher.workers }

    on_worker-start : on_worker x start_job moved ≡ started
    unfolding moved started
    on_worker-start = on_worker-eq x moved w known start_job

    undone : Dispatcher
    undone = record started {
      workers = insert x (undo_job (start_job w)) (insert x (start_job w) h.dispatcher.workers);
    }

    on_worker-undo : on_worker x undo_job started ≡ undone
    unfolding started undone
    on_worker-undo =
        on_worker-eq x started (start_job w)
          (lookup-insert_self x (start_job w) h.dispatcher.workers) undo_job

    here : IsWithin w
    here = Each-lookup (λ _ w. IsWithin w) x h.dispatcher.workers r.staffed.within known

    started-IsStaffed : IsStaffed started.workers
    unfolding started
    started-IsStaffed =
        insert-IsStaffed x h.dispatcher w known (start_job w)
          (start_job-IsWithin w (eligible_room job.type w able) here) r.staffed

    undone-IsStaffed : IsStaffed undone.workers
    unfolding undone started
    undone-IsStaffed =
        insert-IsStaffed x started (start_job w)
          (lookup-insert_self x (start_job w) h.dispatcher.workers) (undo_job (start_job w))
          (undo_job-IsWithin w (eligible_room job.type w able) here) started-IsStaffed

    robin-next : incr h.dispatcher.robin ≡ pos (suc n)
    robin-next = rw r.robin (incr-pos n small)

    ready :
        {q : Queue} (d : Dispatcher) (sent : List Message)
        → Spends h.queue q
        → IsStaffed d.workers
        → d.robin ≡ incr h.dispatcher.robin
        → IsReady (record { queue = q; dispatcher = d; sent = sent }) (suc n)
          × (budget q < budget h.queue)
    ready d sent s t e = (
      record { valid = s.valid; counted = s.counted; staffed = t; robin = e ∙ robin-next },
      s.spent,
    )

    hand_out-IsReady :
        IsReady (hand_out env g h moved job x) (suc n)
        × (budget (hand_out env g h moved job x).queue < budget h.queue)
    unfolding hand_out
    hand_out-IsReady = elim (Option-cases (env.send h.sent (assign_message g x job))) [
      | inl sent ↦
          rw (sent, hand_out, on_worker-start)
            (ready started _ (assign-Spends h.queue job.id x js _ r.valid r.counted found p)
              started-IsStaffed (unfold moved started in refl))
      | inr (e, lost) ↦
          rw (lost, hand_out, on_worker-start, on_worker-undo)
            (ready undone _ (fail-assign-Spends h.queue job.id x js _ r.valid r.counted found p _ _)
              undone-IsStaffed (unfold moved started undone in refl))
    ]

  -- A round stops in a quiet state, or goes on with less to do.
  round-cases :
      ((round env g h ≡ Round.stops h) × IsQuiet h)
      ⊎ ((h' : Host) × (round env g h ≡ Round.goes_on h')
          × IsReady h' (suc n)
          × (budget h'.queue < budget h.queue))
  unfolding round
  round-cases = elim (Option-cases (next_pending h.queue)) [
    | inl idle ↦ inl (rw (idle, round), inl idle)
    | inr (job, next) ↦
        let choice = subst (IsChoice h.queue) next (next_pending-IsChoice h.queue r.valid) in
        let (js, found, _, p) = choice.0 in
        let d = h.dispatcher in
        elim (pick_cases d job.type _ (
          pick_worker_for_type-IsPick (env.visit h.sent d.workers) d job.type n
            (ranging h.sent d.workers r.staffed.distinct) r.robin)) [
              | inl (nobody, none_fits) ↦ inl (rw (next, round, nobody), inr (job, next, none_fits))
              | inr (x, w, known, able, picked) ↦
                  let named : (x == "") ≡ false = ground (arith, eq_iff x "", r.staffed.named) in
                  let after = hand_out-IsReady job js x w found p known able in
                  inr (
                    hand_out env g h moved job x,
                    rw (next, round, picked, named) (unfold moved in refl),
                    after.0,
                    after.1,
                  )
            ]
  ]

-- Let the queue be valid, no counter of a pending job's failures about to wrap, and the workers such
-- that none has the empty id and none has more running jobs than its capacity, both of them ints. With more fuel than
-- the pending jobs may cost in rounds, and a rotation counter that does not wrap, a tick's dispatch
-- then ends without a panic, whatever the network answers and in whatever order each pick visits
-- the workers: either no job is pending, or no worker may take the next one. What was assumed of the
-- queue and the workers holds again.
pub dispatch_ends :
    (fuel : ℕ) (env : Env) (g : String) (h : Host) (n : ℕ)
    → IsRanging env
    → IsReady h n
    → budget h.queue < fuel
    → n + fuel < 2 ^ 63
    → (h' : Host) × (k : ℕ) × (dispatch fuel env g h ≡ Outcome.done h') × IsReady h' k × IsQuiet h'
unfolding dispatch
dispatch_ends zero env g h n ranging r enough small = absurd (omega arith)
dispatch_ends (suc fuel) env g h n ranging r enough small =
    elim (round-cases env ranging g h n r (omega arith)) [
      | inl (e, quiet) ↦ (h, n, rw (e, dispatch), r, quiet)
      | inr (h', e, r', less) ↦
          let (h'', k, ends, ready', quiet) =
            dispatch_ends fuel env g h' (suc n) ranging r' (omega arith) (omega arith) in
          (h'', k, rw (e, dispatch) ends, ready', quiet)
    ]
