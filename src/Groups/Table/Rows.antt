-- ===== src/Groups/Table/Rows.antt =====
-- internal/group and internal/storage/groups.go: the rows of _groups are those of the hosted groups, so
-- that a new start finds them.
use mathlib.Core.Option.{some_inj, some-ne-none}
use goop.Base.{
  ◌-◌, ◌^◌, ◌<◌, Bool, false, String, List, [], ◌∷◌, none, some, ◌==◌, ok, got, err_is_no_ok, ◌≡◌,
  refl, Bool-cases, Option-cases, Result-cases, inl, inr, ap, ap₂, sym, ◌∙◌, subst,
}
use goop.Base.Int.{ℤ}
use goop.Base.Map.{Map, lookup, insert, erase, size, Each, Each-lookup}
use goop.Groups.{HostedGroup, GroupRow, Effect}
use goop.Groups.Table.{
  Table, TableOp, StoredGroup, stored, writes, settle, on_group, close_group, or_unchanged,
  close_all, is_volatile_type, new_row, fresh_group, inserted, accepted, made_room, is_over_limit,
  create_group, restore_group, loaded, restart, act, act_all, Change, change,
}
use goop.Groups.Table.Writes.{IsSaved, change-IsSaved}

unfoldable pub stored_all : Map HostedGroup → Map StoredGroup
stored_all [] = []
stored_all ((id, g) ∷ gs) = (id, stored g) ∷ stored_all gs

pub record IsStored (t : Table) : Type 0 where
  pub rows_match : t.rows ≡ stored_all t.groups

stored_all-insert :
    (id : String) (g : HostedGroup) (gs : Map HostedGroup)
    → stored_all (insert id g gs) ≡ insert id (stored g) (stored_all gs)
unfolding stored_all insert
stored_all-insert id g [] = refl
stored_all-insert id g ((j, k) ∷ gs) = elim (Bool-cases (j == id)) [
  | inl hit ↦ rw hit refl
  | inr miss ↦ rw miss (ap (◌∷◌ (j, stored k)) (stored_all-insert id g gs))
]

stored_all-erase :
    (id : String) (gs : Map HostedGroup) → stored_all (erase id gs) ≡ erase id (stored_all gs)
unfolding stored_all erase
stored_all-erase id [] = refl
stored_all-erase id ((j, k) ∷ gs) = elim (Bool-cases (j == id)) [
  | inl hit ↦ rw hit (stored_all-erase id gs)
  | inr miss ↦ rw miss (ap (◌∷◌ (j, stored k)) (stored_all-erase id gs))
]

pub lookup-stored_all :
    (id : String) (g : HostedGroup) (gs : Map HostedGroup)
    → lookup id gs ≡ some g
    → lookup id (stored_all gs) ≡ some (stored g)
unfolding stored_all lookup
lookup-stored_all id g [] e = cc
lookup-stored_all id g ((j, k) ∷ gs) e = elim (Bool-cases (j == id)) [
  | inl hit ↦ rw hit (ap some (ap stored (some_inj.0 (rw hit at e))))
  | inr miss ↦ rw miss (lookup-stored_all id g gs (rw miss at e))
]

stored_all_absent :
    (id : String) (gs : Map HostedGroup) → lookup id gs ≡ none → lookup id (stored_all gs) ≡ none
unfolding stored_all lookup
stored_all_absent id [] e = refl
stored_all_absent id ((j, k) ∷ gs) e = elim (Bool-cases (j == id)) [
  | inl hit ↦ absurd (some-ne-none _ (rw hit at e))
  | inr miss ↦ rw miss (stored_all_absent id gs (rw miss at e))
]

pub stored_all-loaded : (t : Table) (rows : Map StoredGroup) → stored_all (loaded t rows) ≡ rows
unfolding stored_all loaded fresh_group stored
stored_all-loaded t [] = refl
stored_all-loaded t ((id, row) ∷ rows) = ap (◌∷◌ (id, row)) (stored_all-loaded t rows)

close_group-IsStored :
    (id : String) (t : Table) → IsStored t → IsStored (or_unchanged t (close_group id t))
unfolding close_group or_unchanged
close_group-IsStored id t h = elim (Option-cases (lookup id t.groups)) [
  | inl absent ↦ rw (absent, close_group) h
  | inr (g, found) ↦
      rw (found, close_group)
        (record { rows_match = ap (erase id) h.rows_match ∙ sym (stored_all-erase id t.groups) })
]

close_all-IsStored : (ids : List String) (t : Table) → IsStored t → IsStored (close_all ids t)
unfolding close_all
close_all-IsStored [] t h = h
close_all-IsStored (id ∷ ids) t h = close_all-IsStored ids _ (close_group-IsStored id t h)

pub made_room-IsStored :
    (group_type : String) (t : Table) → IsStored t → IsStored (made_room group_type t)
unfolding made_room
made_room-IsStored group_type t h = elim (Bool-cases (is_volatile_type t.handlers group_type)) [
  | inl volatile ↦ rw volatile (close_all-IsStored _ t h)
  | inr stable ↦ rw stable h
]

pub inserted-IsStored :
    (id : String) (row : GroupRow) (t t' : Table)
    → inserted id row t ≡ ok t'
    → IsStored t
    → IsStored t'
unfolding inserted fresh_group stored
inserted-IsStored id row t t' e h = elim (Option-cases (lookup id t.rows)) [
  | inr (_, taken) ↦ err_is_no_ok _ _ (rw (taken, inserted) at e)
  | inl free ↦
      let next : Table = record t {
        groups = insert id (fresh_group t row false) t.groups;
        rows = insert id (record { info = row; host_joined = false }) t.rows;
      } in
      let same : next ≡ t' = ap (got next) (rw (free, inserted) at e) in
      subst IsStored same (record {
        rows_match =
            ap (insert id (record { info = row; host_joined = false })) h.rows_match
            ∙ sym (stored_all-insert id (fresh_group t row false) t.groups);
      })
]

pub accepted-IsStored :
    (accepts : Bool) (id : String) (row : GroupRow) (t : Table)
    → IsStored t
    → IsStored (accepted accepts id row t).0
unfolding accepted
accepted-IsStored accepts id row t h =
    let asked : Table = record t { outbox = (id, Effect.on_create) ∷ t.outbox } in
    let kept : IsStored asked = record { rows_match = h.rows_match } in
    elim (Option-cases (lookup row.group_type t.handlers)) [
      | inl none_there ↦ rw (none_there, accepted) h
      | inr (_, there) ↦ elim (Bool-cases accepts) [
        | inl yes_ ↦ rw (there, accepted, yes_) kept
        | inr no_ ↦ rw (there, accepted, no_) (close_group-IsStored id asked kept)
      ]
    ]

create_group-IsStored :
    (accepts : Bool) (id name group_type group_context : String) (max : ℤ) (t : Table)
    → IsStored t
    → IsStored (create_group accepts id name group_type group_context max t).0
unfolding create_group
create_group-IsStored accepts id name group_type group_context max t h =
    let row = new_row name group_type group_context max in
    let t' = made_room group_type t in
    let h' = made_room-IsStored group_type t h in
    elim (Bool-cases (is_over_limit group_type t')) [
      | inl over ↦ rw over h'
      | inr room ↦ elim (Result-cases (inserted id row t')) [
        | inr (e, failed) ↦ rw (room, failed, create_group) h'
        | inl (t'', made) ↦
            rw (room, made, create_group)
              (accepted-IsStored accepts id row t'' (inserted-IsStored id row t' t'' made h'))
      ]
    ]

-- A group whose writes fit what it has become.
settle-IsStored :
    (id : String) (g k : HostedGroup) (t : Table)
    → lookup id t.groups ≡ some g
    → IsSaved (stored g) k
    → IsStored t
    → IsStored (settle id k t)
unfolding settle stored
settle-IsStored id g k t found saved h =
    let row : lookup id t.rows ≡ some (stored g) =
      ap (lookup id) h.rows_match ∙ lookup-stored_all id g t.groups found in
    record {
      rows_match =
          rw (row, settle)
            (ap₂ (insert id) saved.saved h.rows_match
              ∙ sym (stored_all-insert id (record k { effects = [] }) t.groups));
    }

on_group-IsStored :
    (id : String) (f : HostedGroup → HostedGroup) (t : Table)
    → ((g : HostedGroup)
        → lookup id t.groups ≡ some g
        → IsSaved (stored g) (f (record g { effects = [] })))
    → IsStored t
    → IsStored (or_unchanged t (on_group id f t))
unfolding on_group or_unchanged
on_group-IsStored id f t saves h = elim (Option-cases (lookup id t.groups)) [
  | inl absent ↦ rw (absent, on_group) h
  | inr (g, found) ↦
      rw (found, on_group)
        (settle-IsStored id g (f (record g { effects = [] })) t found (saves g found) h)
]

-- No group has as many members as the largest `int`.
unfoldable pub IsSmall : Table → Type 0
IsSmall t = Each (λ _ g. size g.members < 2 ^ 63 - 1) t.groups

unsaved-IsSaved : (g : HostedGroup) → IsSaved (stored g) (record g { effects = [] })
unfolding writes stored
unsaved-IsSaved g = record { saved = refl }

small_group :
    (id : String) (g : HostedGroup) (t : Table)
    → IsSmall t
    → lookup id t.groups ≡ some g
    → size g.members < 2 ^ 63 - 1
unfolding IsSmall
small_group id g t small found =
    Each-lookup (λ _ k. size k.members < 2 ^ 63 - 1) id t.groups small found

pub absent_of_rows :
    (id : String) (t : Table) → IsStored t → lookup id t.rows ≡ none → lookup id t.groups ≡ none
absent_of_rows id t h no_row = elim (Option-cases (lookup id t.groups)) [
  | inl absent ↦ absent
  | inr (g, there) ↦
      let row : lookup id t.rows ≡ some (stored g) =
        ap (lookup id) h.rows_match ∙ lookup-stored_all id g t.groups there in
      absurd (some-ne-none _ (sym row ∙ no_row))
]

-- Every group that has a row is there already.
pub restore_group_lem : (id : String) (t : Table) → IsStored t → restore_group id t ≡ t
unfolding restore_group
restore_group_lem id t h = elim (Option-cases (lookup id t.rows)) [
  | inl no_row ↦ rw (no_row, restore_group) refl
  | inr (row, found) ↦ elim (Option-cases (lookup id t.groups)) [
    | inr (g, there) ↦ rw (found, restore_group, there) refl
    | inl absent ↦
        let no_row : lookup id t.rows ≡ none =
          ap (lookup id) h.rows_match ∙ stored_all_absent id t.groups absent in
        absurd (some-ne-none _ (sym found ∙ no_row))
  ]
]

-- The writes of an operation on a group of the table.
pub change_saves :
    (id : String) (c : Change) (t : Table)
    → IsSmall t
    → (g : HostedGroup) → lookup id t.groups ≡ some g
    → IsSaved (stored g) (change c (record g { effects = [] }))
change_saves id c t small g found =
    change-IsSaved (stored g) c _ (small_group id g t small found) (unsaved-IsSaved g)

pub act-IsStored : (op : TableOp) (t : Table) → IsSmall t → IsStored t → IsStored (act op t)
unfolding act restart
act-IsStored (TableOp.creates accepts id name group_type group_context max) t small h =
    create_group-IsStored accepts id name group_type group_context max t h
act-IsStored (TableOp.closes id) t small h = close_group-IsStored id t h
act-IsStored (TableOp.restores id) t small h = subst IsStored (sym (restore_group_lem id t h)) h
act-IsStored (TableOp.changes id c) t small h =
    on_group-IsStored id (change c) t (change_saves id c t small) h
act-IsStored TableOp.restarts t small h = record { rows_match = sym (stored_all-loaded t t.rows) }

unfoldable pub AllSmall : Table → List TableOp → Type 0
AllSmall t [] = Unit
AllSmall t (op ∷ ops) = IsSmall t × AllSmall (act op t) ops

act_all-IsStored :
    (t : Table) (ops : List TableOp) → AllSmall t ops → IsStored t → IsStored (act_all t ops)
unfolding act_all AllSmall
act_all-IsStored t [] small h = h
act_all-IsStored t (op ∷ ops) small h =
    act_all-IsStored (act op t) ops small.1 (act-IsStored op t small.0 h)

-- A new start after any operations brings all hosted groups back, and no others, each with its name,
-- type, context, roles and limit and with the host's own place in it; as long as the rows match the
-- groups at the outset (as they do in an empty table) and no group has 2 ^ 63 - 1 members.
pub restart-act_all :
    (t : Table) (ops : List TableOp)
    → IsStored t
    → AllSmall t ops
    → stored_all (restart (act_all t ops)).groups ≡ stored_all (act_all t ops).groups
unfolding restart
restart-act_all t ops h small =
    let u = act_all t ops in
    stored_all-loaded u u.rows ∙ (act_all-IsStored t ops small h).rows_match
