-- ===== src/Cluster/Queue/Persistence.antt =====
-- The store beside the queue: internal/group_types/cluster/queue.go over store.go and
-- internal/storage/cluster.go.
use goop.Base.{
  ℕ, String, true, false, Option, none, some, ◌≡◌, ◌≢◌, refl, arith, eq_iff, ◌==◌, inl, inr,
  Bool-cases, Option-cases, subst, ap, ◌∙◌, sym,
}
use goop.Base.Int.{ℤ}
use goop.Base.Map.{
  Map, lookup, insert, erase, Each-lookup, lookup-insert_self, lookup-insert_ne, lookup-erase_self,
  lookup-erase_ne,
}
use goop.Base.Json.{Fields}
use goop.Cluster.Types.{Job, JobState, is_terminal, is_live, is_assigned}
use goop.Cluster.Store.{
  JobStore, Row, on_disk, merge_row, save_row, save_job, delete_row, delete_job, IsTable,
  save_row-IsTable, erase-IsTable,
}
use goop.Cluster.Queue.{
  Queue, persist, update, forget, submit, submitted, with_id, cancel, delete, assign, mark_running,
  complete, finished, fail, failed_once, update_progress,
}
use goop.Cluster.Queue.Calls.{Call, IsValid, is_clear, step, after}

-- What the table holds for an id, given what the queue holds.
abbrev pub Agrees : String → Option JobState → Option Row → Type 0
Agrees g (some js) r = r ≡ some (record { group_id = g; state = on_disk js })
Agrees g none none = Unit
Agrees g none (some r) = (r.group_id == g) ≡ false

-- The queue writes to the working store `s`, and the rows of its group are its jobs.
pub record Mirrors (q : Queue) (s : JobStore) : Type 0 where
  pub stored : q.store ≡ some s
  pub works : s.works ≡ true
  pub grouped : (q.group_id == "") ≡ false
  pub table : IsTable s.rows
  pub agrees : (id : String) → Agrees q.group_id (lookup id q.jobs) (lookup id s.rows)

abbrev pub Mirrored : Queue → Type 0
Mirrored q = (s : JobStore) × Mirrors q s

-- A new state of a job that the table knows, or a job that it does not know.
abbrev Writable : String → Option JobState → JobState → Option Row → Type 0
Writable g (some old) js r = (js.job ≡ old.job) × (js.created_at ≡ old.created_at)
Writable g none js r = r ≡ none

row_of : String → JobState → Row
row_of g js = record { group_id = g; state = on_disk js }

merge-on_disk :
    (old js : JobState)
    → js.job ≡ old.job
    → js.created_at ≡ old.created_at
    → merge_row (on_disk old) (on_disk js) ≡ on_disk js
unfolding merge_row on_disk
merge-on_disk old js e d = ground arith

save_row-Agrees :
    (g : String) (old : Option JobState) (js : JobState) (rows : Map Row)
    → Agrees g old (lookup js.job.id rows)
    → Writable g old js (lookup js.job.id rows)
    → lookup js.job.id (save_row g js rows) ≡ some (record { group_id = g; state = on_disk js })
unfolding save_row
save_row-Agrees g none js rows a w = rw (w, save_row) (lookup-insert_self js.job.id _ rows)
save_row-Agrees g (some old) js rows a w =
    rw (a, save_row) (rw (merge-on_disk old js w.0 w.1) (lookup-insert_self js.job.id _ rows))

lookup-save_row_ne :
    (g j : String) (js : JobState) (rows : Map Row)
    → j ≢ js.job.id
    → lookup j (save_row g js rows) ≡ lookup j rows
unfolding save_row
lookup-save_row_ne g j js rows h = elim (Option-cases (lookup js.job.id rows)) [
  | inl e ↦ rw (e, save_row) (lookup-insert_ne js.job.id j _ rows h)
  | inr (r, e) ↦ rw (e, save_row) (lookup-insert_ne js.job.id j _ rows h)
]

job-failed_once :
    (js : JobState) (message : String) (now : ℕ) → (failed_once js message now).job ≡ js.job
unfolding failed_once finished
job-failed_once js message now = ground arith

created-failed_once :
    (js : JobState) (message : String) (now : ℕ)
    → (failed_once js message now).created_at ≡ js.created_at
unfolding failed_once finished
created-failed_once js message now = ground arith

module _ (q : Queue) (s : JobStore) (m : Mirrors q s) where
  saved : JobState → JobStore
  saved js = record s { rows = save_row q.group_id js s.rows }

  update-eq :
      (id : String) (js : JobState)
      → update id js q ≡ record q { jobs = insert id js q.jobs; store = some (saved js) }
  unfolding update persist save_job saved
  update-eq id js = ground (arith, m.stored, m.works, m.grouped)

  module _ (id : String) (js : JobState) (e : js.job.id ≡ id)
      (w : Writable q.group_id (lookup id q.jobs) js (lookup id s.rows)) where
    update-agrees_self : lookup id (save_row q.group_id js s.rows) ≡ some (row_of q.group_id js)
    unfolding row_of
    update-agrees_self =
        subst (λ k. lookup k (save_row q.group_id js s.rows) ≡ some (row_of q.group_id js)) e
          (save_row-Agrees q.group_id (lookup id q.jobs) js s.rows
            (subst (λ k. Agrees q.group_id (lookup id q.jobs) (lookup k s.rows)) (sym e)
              (m.agrees id))
            (subst (λ k. Writable q.group_id (lookup id q.jobs) js (lookup k s.rows)) (sym e) w))

    update-Agrees :
        (j : String)
        → Agrees q.group_id
            (lookup j (insert id js q.jobs))
            (lookup j (save_row q.group_id js s.rows))
    update-Agrees j = elim (Bool-cases (j == id)) [
      | inl hit ↦
          rw ((eq_iff j id).0 hit, lookup-insert_self id js q.jobs)
            (unfold row_of in update-agrees_self)
      | inr miss ↦
          let other : j ≢ id = λ p. ground (arith, eq_iff j id) in
          rw
            (
              lookup-insert_ne id j js q.jobs other,
              lookup-save_row_ne q.group_id j js s.rows (λ p. other (p ∙ e)),
            )
            (m.agrees j)
    ]

    update-Mirrors : Mirrors (update id js q) (saved js)
    unfolding saved
    update-Mirrors = rw (update-eq id js) (record {
      stored = refl;
      works = m.works;
      grouped = m.grouped;
      table = save_row-IsTable q.group_id js s.rows m.table;
      agrees = update-Agrees;
    })

  deleted : String → JobStore
  deleted id = record s { rows = delete_row q.group_id id s.rows }

  forget-eq :
      (id : String) → forget id q ≡ record q { jobs = erase id q.jobs; store = some (deleted id) }
  unfolding forget delete_job deleted
  forget-eq id = ground (arith, m.stored, m.works, m.grouped)

  known_row :
      (id : String) (js : JobState)
      → lookup id q.jobs ≡ some js
      → lookup id s.rows ≡ some (row_of q.group_id js)
  unfolding row_of
  known_row id js e = subst (λ o. Agrees q.group_id o (lookup id s.rows)) e (m.agrees id)

  delete_row-eq :
      (id : String) (js : JobState)
      → lookup id q.jobs ≡ some js
      → delete_row q.group_id id s.rows ≡ erase id s.rows
  unfolding delete_row row_of
  delete_row-eq id js e =
      rw (known_row id js e, delete_row) (ground (arith, eq_iff q.group_id q.group_id))

  forget-Mirrors :
      (id : String) (js : JobState)
      → lookup id q.jobs ≡ some js
      → Mirrors (forget id q) (deleted id)
  unfolding deleted
  forget-Mirrors id js e = rw (forget-eq id) (record {
    stored = refl;
    works = m.works;
    grouped = m.grouped;
    table = rw (delete_row-eq id js e) (erase-IsTable id s.rows m.table);
    agrees = λ j. rw (delete_row-eq id js e) (elim (Bool-cases (j == id)) [
      | inl hit ↦
          rw ((eq_iff j id).0 hit, lookup-erase_self id q.jobs, lookup-erase_self id s.rows) tt
      | inr miss ↦
          let other : j ≢ id = λ p. ground (arith, eq_iff j id) in
          rw (lookup-erase_ne id j q.jobs other, lookup-erase_ne id j s.rows other) (m.agrees j)
    ]);
  })

  module _ (v : IsValid q) (id : String) where
    job_id : {js : JobState} → lookup id q.jobs ≡ some js → js.job.id ≡ id
    job_id e = Each-lookup (λ id js. js.job.id ≡ id) id q.jobs v.keyed e

    rewritten :
        (old js : JobState)
        → lookup id q.jobs ≡ some old
        → js.job ≡ old.job
        → js.created_at ≡ old.created_at
        → Mirrored (update id js q)
    rewritten old js e same since = (
      saved js,
      update-Mirrors id js (ap (λ (j : Job). j.id) same ∙ job_id e) (rw e (same, since)),
    )

    cancel-Mirrors : (now : ℕ) → Mirrored (after q (cancel q id now))
    unfolding cancel
    cancel-Mirrors now = elim (Option-cases (lookup id q.jobs)) [
      | inl e ↦ rw (e, cancel) (s, m)
      | inr (js, e) ↦
          rw (e, cancel)
            (elim (Bool-cases (is_terminal js.status)) [
              | inl t ↦ rw t (s, m)
              | inr t ↦ rw t (rewritten js _ e refl refl)
            ])
    ]

    delete-Mirrors : Mirrored (after q (delete q id))
    unfolding delete
    delete-Mirrors = elim (Option-cases (lookup id q.jobs)) [
      | inl e ↦ rw (e, delete) (s, m)
      | inr (js, e) ↦
          rw (e, delete)
            (elim (Bool-cases (is_live js.status)) [
              | inl t ↦ rw t (s, m)
              | inr t ↦ rw t (deleted id, forget-Mirrors id js e)
            ])
    ]

    assign-Mirrors : (worker_id : String) (now : ℕ) → Mirrored (assign q id worker_id now)
    unfolding assign
    assign-Mirrors worker_id now = elim (Option-cases (lookup id q.jobs)) [
      | inl e ↦ rw (e, assign) (s, m)
      | inr (js, e) ↦ rw (e, assign) (rewritten js _ e refl refl)
    ]

    mark_running-Mirrors : Mirrored (mark_running q id)
    unfolding mark_running
    mark_running-Mirrors = elim (Option-cases (lookup id q.jobs)) [
      | inl e ↦ rw (e, mark_running) (s, m)
      | inr (js, e) ↦
          rw (e, mark_running)
            (elim (Bool-cases (is_assigned js.status)) [
              | inl t ↦ rw t (rewritten js _ e refl refl)
              | inr t ↦ rw t (s, m)
            ])
    ]

    complete-Mirrors : (result : Option Fields) (now : ℕ) → Mirrored (complete q id result now)
    unfolding complete finished
    complete-Mirrors result now = elim (Option-cases (lookup id q.jobs)) [
      | inl e ↦ rw (e, complete) (s, m)
      | inr (js, e) ↦ rw (e, complete) (rewritten js _ e refl refl)
    ]

    fail-Mirrors : (message : String) (now : ℕ) → Mirrored (fail q id message now)
    unfolding fail
    fail-Mirrors message now = elim (Option-cases (lookup id q.jobs)) [
      | inl e ↦ rw (e, fail) (s, m)
      | inr (js, e) ↦
          rw (e, fail)
            (rewritten js _ e (job-failed_once js message now) (created-failed_once js message now))
    ]

    update_progress-Mirrors :
        (percent : ℤ) (message : String) → Mirrored (update_progress q id percent message)
    unfolding update_progress
    update_progress-Mirrors percent message = elim (Option-cases (lookup id q.jobs)) [
      | inl e ↦ rw (e, update_progress) (s, m)
      | inr (js, e) ↦ rw (e, update_progress) (rewritten js _ e refl refl)
    ]

-- The id of a submitted job is new to the table.
abbrev pub IsNew : Call → JobStore → Type 0
IsNew (Call.submits job generated now) s = lookup (with_id generated job).id s.rows ≡ none
IsNew _ s = Unit

submit-Mirrors :
    (q : Queue) (s : JobStore) (job : Job) (generated : String) (now : ℕ)
    → Mirrors q s
    → lookup (with_id generated job).id s.rows ≡ none
    → Mirrored (submit q job generated now).0
unfolding submit submitted
submit-Mirrors q s job generated now m fresh =
    let id = (with_id generated job).id in
    (
      saved q s m _,
      update-Mirrors q s m id _ refl (elim (Option-cases (lookup id q.jobs)) [
        | inl e ↦ rw e fresh
        | inr (js, e) ↦ absurd (ground (arith, known_row q s m id js e))
      ]),
    )

-- While the store works, every call but Clear, of a job whose id the table does not know where it is
-- a Submit, leaves the rows of the group equal to the jobs of the queue (in the form in which the
-- table keeps a job).
pub step-Mirrored :
    (q : Queue) (s : JobStore) (c : Call)
    → IsValid q
    → Mirrors q s
    → is_clear c ≡ false
    → IsNew c s
    → Mirrored (step q c)
unfolding step is_clear
step-Mirrored q s (Call.submits job generated now) v m k f =
    submit-Mirrors q s job generated now m f
step-Mirrored q s (Call.cancels id now) v m k f = cancel-Mirrors q s m v id now
step-Mirrored q s (Call.deletes id) v m k f = delete-Mirrors q s m v id
step-Mirrored q s (Call.assigns id w now) v m k f = assign-Mirrors q s m v id w now
step-Mirrored q s (Call.runs id) v m k f = mark_running-Mirrors q s m v id
step-Mirrored q s (Call.completes id r now) v m k f = complete-Mirrors q s m v id r now
step-Mirrored q s (Call.fails id e now) v m k f = fail-Mirrors q s m v id e now
step-Mirrored q s (Call.progresses id p e) v m k f = update_progress-Mirrors q s m v id p e
step-Mirrored q s Call.clears v m k f = cc
