-- ===== src/Cluster/Store.antt =====
-- internal/group_types/cluster/store.go and internal/storage/cluster.go: the rows of the table
-- _cluster_jobs, whose primary key is the job's id. SQLite itself is a switch that says whether its
-- statements succeed.
use goop.Base.{
  ℕ, ◌-◌, ◌%◌, String, Bool, List, [], ◌∷◌, Option, none, some, if◌then◌else◌, ◌==◌, ◌≡◌, refl, inl,
  inr, Option-cases,
}
use goop.Base.Map.{
  Map, lookup, insert, erase, IsDistinct, Each, insert-IsDistinct, erase-IsDistinct, Each-lookup,
  Each-insert, Each-erase,
}
use goop.Base.Json.{Fields, end, field}
use goop.Cluster.Types.{JobState}

pub record Row : Type 0 where
  pub group_id : String
  pub state : JobState

pub record JobStore : Type 0 where
  pub works : Bool
  pub rows : Map Row

-- FormatTime then ParseTime: RFC 3339 keeps whole seconds.
unfoldable pub stored_time : ℕ → ℕ
stored_time t = t - t % 1_000_000_000

-- MarshalJSON then UnmarshalJSON: an empty object comes back as nil.
unfoldable pub stored_fields : Option Fields → Option Fields
stored_fields none = none
stored_fields (some end) = none
stored_fields (some (field k v fs)) = some (field k v fs)

-- A job as SaveJob writes its columns and LoadJobs reads them.
unfoldable pub on_disk : JobState → JobState
on_disk js = record js {
  job = record (js.job) { payload = stored_fields js.job.payload };
  result = stored_fields js.result;
  created_at = stored_time js.created_at;
  started_at = stored_time js.started_at;
  done_at = stored_time js.done_at;
}

-- ON CONFLICT(id) DO UPDATE: the columns of the job itself and its creation stay as they were.
unfoldable pub merge_row : JobState → JobState → JobState
merge_row old new = record new { job = old.job; created_at = old.created_at }

unfoldable pub save_row : String → JobState → Map Row → Map Row
unfolding merge_row
save_row group_id js rows = elim (lookup js.job.id rows) [
  | none ↦ insert js.job.id (record { group_id = group_id; state = on_disk js }) rows
  | some r ↦ insert js.job.id (record r { state = merge_row r.state (on_disk js) }) rows
]

unfoldable pub save_job : String → JobState → JobStore → JobStore
save_job group_id js s = if s.works then record s { rows = save_row group_id js s.rows } else s

-- DELETE … WHERE group_id = ? AND id = ?
unfoldable pub delete_row : String → String → Map Row → Map Row
delete_row group_id id rows = elim (lookup id rows) [
  | none ↦ rows
  | some r ↦ if r.group_id == group_id then erase id rows else rows
]

unfoldable pub delete_job : String → String → JobStore → JobStore
delete_job group_id id s = if s.works then record s { rows = delete_row group_id id s.rows } else s

-- DELETE … WHERE group_id = ?
unfoldable pub without_group : String → Map Row → Map Row
without_group group_id [] = []
without_group group_id ((id, r) ∷ rows) =
    let rest = without_group group_id rows in
    if r.group_id == group_id then rest else (id, r) ∷ rest

unfoldable pub delete_jobs : String → JobStore → JobStore
delete_jobs group_id s = if s.works then record s { rows = without_group group_id s.rows } else s

-- SELECT … WHERE group_id = ?
unfoldable pub states_of : String → Map Row → List JobState
states_of group_id [] = []
states_of group_id ((_, r) ∷ rows) =
    let rest = states_of group_id rows in if r.group_id == group_id then r.state ∷ rest else rest

unfoldable pub load_jobs : String → JobStore → Option (List JobState)
load_jobs group_id s = if s.works then some (states_of group_id s.rows) else none

-- A table with its primary key: each row stands once, under the id of its job.
pub record IsTable (rows : Map Row) : Type 0 where
  pub distinct : IsDistinct rows
  pub keyed : Each (λ id r. r.state.job.id ≡ id) rows

pub insert-IsTable :
    (id : String) (r : Row) (rows : Map Row)
    → r.state.job.id ≡ id
    → IsTable rows
    → IsTable (insert id r rows)
insert-IsTable id r rows e t = record {
  distinct = insert-IsDistinct id r rows t.distinct;
  keyed = Each-insert _ id r rows t.keyed e;
}

pub save_row-IsTable :
    (g : String) (js : JobState) (rows : Map Row) → IsTable rows → IsTable (save_row g js rows)
unfolding save_row on_disk
save_row-IsTable g js rows t = elim (Option-cases (lookup js.job.id rows)) [
  | inl e ↦ rw (e, save_row) (insert-IsTable js.job.id _ rows refl t)
  | inr (r, e) ↦
      rw (e, save_row)
        (insert-IsTable js.job.id _ rows
          (Each-lookup (λ id r. r.state.job.id ≡ id) js.job.id rows t.keyed e) t)
]

pub erase-IsTable : (id : String) (rows : Map Row) → IsTable rows → IsTable (erase id rows)
erase-IsTable id rows t = record {
  distinct = erase-IsDistinct id rows t.distinct;
  keyed = Each-erase _ id rows t.keyed;
}
