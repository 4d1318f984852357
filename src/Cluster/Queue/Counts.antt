-- ===== src/Cluster/Queue/Counts.antt =====
-- Queue.Stats of internal/group_types/cluster/queue.go.
use mathlib.Core.List.{Perm, Permᴰ}
use mathlib.Core.Logic.{∥∥₁_elim}
use native.Mathlib.Nat.{ℕ_set}
use goop.Base.{ℕ, ◌+◌, String, [], ◌∷◌, ◌≡◌, refl, arith, ◌∙◌}
use goop.Base.Map.{Map, size, total}
use goop.Cluster.Types.{JobState, JobStatus, QueueStats}
use goop.Cluster.Queue.{Queue, count, stats_from, stats}

-- What one job adds to each number, and to those that Stats leaves out.
abbrev pub waits : JobStatus → ℕ
waits JobStatus.pending = 1
waits JobStatus.assigned = 1
waits _ = 0

abbrev pub runs : JobStatus → ℕ
runs JobStatus.running = 1
runs _ = 0

abbrev pub succeeds : JobStatus → ℕ
succeeds JobStatus.completed = 1
succeeds _ = 0

abbrev pub breaks : JobStatus → ℕ
breaks JobStatus.failed = 1
breaks _ = 0

abbrev pub is_left_out : JobStatus → ℕ
is_left_out JobStatus.cancelled = 1
is_left_out (JobStatus.unknown _) = 1
is_left_out _ = 0

abbrev zeros : QueueStats
zeros = record { pending = 0; running = 0; completed = 0; failed = 0; workers = 0 }

record Adds (s : QueueStats) (m : Map JobState) (r : QueueStats) : Type 0 where
  pending : r.pending ≡ s.pending + total (λ js. waits js.status) m
  running : r.running ≡ s.running + total (λ js. runs js.status) m
  completed : r.completed ≡ s.completed + total (λ js. succeeds js.status) m
  failed : r.failed ≡ s.failed + total (λ js. breaks js.status) m
  workers : r.workers ≡ s.workers

count-Adds :
    (s : QueueStats) (id : String) (js : JobState) (st : JobStatus) (m : Map JobState)
    {r : QueueStats}
    → js.status ≡ st
    → Adds (count s st) m r
    → Adds s ((id, js) ∷ m) r
unfolding count total
count-Adds s id js JobStatus.pending m e a = ground arith
count-Adds s id js st m e a = ground arith

stats_from-Adds : (s : QueueStats) (m : Map JobState) → Adds s m (stats_from s m)
unfolding stats_from total
stats_from-Adds s [] = ground arith
stats_from-Adds s ((id, js) ∷ m) =
    count-Adds s id js js.status m refl (stats_from-Adds (count s js.status) m)

split_total :
    (m : Map JobState)
    → total (λ js. waits js.status) m
        + total (λ js. runs js.status) m
        + total (λ js. succeeds js.status) m
        + total (λ js. breaks js.status) m
        + total (λ js. is_left_out js.status) m
      ≡ size m
unfolding total
split_total [] = omega arith
split_total ((id, js) ∷ m) = ground (arith, split_total m)

total_permᴰ : (f : JobState → ℕ) {m n : Map JobState} → Permᴰ m n → total f m ≡ total f n
unfolding total
total_permᴰ f Permᴰ.nil = refl
total_permᴰ f (Permᴰ.cons e p) = ground (arith, total_permᴰ f p)
total_permᴰ f (Permᴰ.swap {a = (_, x)} {b = (_, y)} e d) = ground arith
total_permᴰ f (Permᴰ.trans p q) = total_permᴰ f p ∙ total_permᴰ f q

total_perm : (f : JobState → ℕ) {m n : Map JobState} → Perm m n → total f m ≡ total f n
total_perm f p = ∥∥₁_elim p (ℕ_set _ _) (total_permᴰ f)

-- Stats counts every job once: assigned jobs with the pending ones, and all but the cancelled (and
-- those of a status that is no constant) under one of the four numbers, which do not depend on the
-- order in which the map is visited.
pub stats_counts :
    (q : Queue)
    → ((stats q).pending ≡ total (λ js. waits js.status) q.jobs)
      × ((stats q).running ≡ total (λ js. runs js.status) q.jobs)
      × ((stats q).completed ≡ total (λ js. succeeds js.status) q.jobs)
      × ((stats q).failed ≡ total (λ js. breaks js.status) q.jobs)
      × ((stats q).pending
            + (stats q).running
            + (stats q).completed
            + (stats q).failed
            + total (λ js. is_left_out js.status) q.jobs
          ≡ size q.jobs)
      × ((n : Map JobState) → Perm q.jobs n → stats (record q { jobs = n }) ≡ stats q)
unfolding stats
stats_counts q =
    let a = stats_from-Adds zeros q.jobs in
    let t = split_total q.jobs in
    (
      omega arith,
      omega arith,
      omega arith,
      omega arith,
      omega arith,
      λ n p.
          let b = stats_from-Adds zeros n in
          let w = total_perm (λ js. waits js.status) p in
          let r = total_perm (λ js. runs js.status) p in
          let c = total_perm (λ js. succeeds js.status) p in
          let f = total_perm (λ js. breaks js.status) p in ground arith,
    )
