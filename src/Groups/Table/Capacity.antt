-- ===== src/Groups/Table/Capacity.antt =====
-- internal/group: at most 50 hosted groups that are not volatile, and one of each volatile type.
use mathlib.Core.Option.{some-ne-none}
use goop.Base.{
  ℕ, ◌+◌, ◌≤◌, arith, Bool, false, String, List, [], ◌∷◌, none, some, if◌then◌else◌, ◌==◌, ok, got,
  err_is_no_ok, ◌≡◌, refl, Bool-cases, Option-cases, Result-cases, inl, inr, ap, sym, ◌∙◌, subst,
}
use goop.Base.Int.{ℤ}
use goop.Base.Map.{
  Map, lookup, insert, total, IsDistinct, insert-IsDistinct, erase-IsDistinct, total-insert_new,
  total-insert_old, total-erase,
}
use goop.Groups.{HostedGroup, GroupRow, Effect}
use goop.Groups.Table.{
  Table, TableOp, StoredGroup, stored, write, writes, settle, on_group, close_group, or_unchanged,
  close_all, is_volatile_type, is_stable, stable_count, max_hosted_groups, new_row, fresh_group,
  inserted, accepted, made_room, is_over_limit, create_group, loaded, restart, act, act_all, change,
}
use goop.Groups.Table.Writes.{IsSaved}
use goop.Groups.Table.Rows.{
  IsStored, IsSmall, AllSmall, stored_all, change_saves, act-IsStored, restore_group_lem,
  absent_of_rows, made_room-IsStored,
}

-- Every id stands once, and at most 50 groups are not volatile.
pub record IsCapped (t : Table) : Type 0 where
  pub distinct : IsDistinct t.groups
  pub capped : stable_count t ≤ max_hosted_groups

-- No write changes the type of a group.
write-group_type : (e : Effect) (s : StoredGroup) → (write e s).info.group_type ≡ s.info.group_type
unfolding write
write-group_type (Effect.max_saved max) s = refl
write-group_type (Effect.meta_saved name max) s = refl
write-group_type (Effect.default_role_saved role) s = refl
write-group_type (Effect.roles_saved roles) s = refl
write-group_type (Effect.host_saved joined) s = refl
write-group_type (Effect.welcome p row vol ms) s = refl
write-group_type (Effect.full p) s = refl
write-group_type (Effect.members_sent p ms) s = refl
write-group_type (Effect.meta_sent p row) s = refl
write-group_type (Effect.close_sent p) s = refl
write-group_type (Effect.relayed p kind payload) s = refl
write-group_type (Effect.event kind p) s = refl
write-group_type (Effect.members_saved ms) s = refl
write-group_type (Effect.role_saved p role) s = refl
write-group_type (Effect.on_join p host) s = refl
write-group_type (Effect.on_leave p host) s = refl
write-group_type Effect.on_create s = refl
write-group_type Effect.on_close s = refl

writes-group_type :
    (es : List Effect) (s : StoredGroup) → (writes es s).info.group_type ≡ s.info.group_type
unfolding writes
writes-group_type [] s = refl
writes-group_type (e ∷ es) s = write-group_type e (writes es s) ∙ writes-group_type es s

saved_type : (g k : HostedGroup) → IsSaved (stored g) k → k.info.group_type ≡ g.info.group_type
unfolding stored
saved_type g k h =
    sym (ap (λ s. s.info.group_type) h.saved) ∙ writes-group_type k.effects (stored g)

close_group-IsCapped :
    (id : String) (t : Table) → IsCapped t → IsCapped (or_unchanged t (close_group id t))
unfolding close_group or_unchanged stable_count
close_group-IsCapped id t h = elim (Option-cases (lookup id t.groups)) [
  | inl absent ↦ rw (absent, close_group) h
  | inr (g, found) ↦
      let less = total-erase (is_stable t.handlers) id g t.groups h.distinct found in
      let old : total (is_stable t.handlers) t.groups ≤ 50 = h.capped in
      rw (found, close_group)
        (record {
          distinct = erase-IsDistinct id t.groups h.distinct;
          capped = omega (arith, less, old);
        })
]

close_all-IsCapped : (ids : List String) (t : Table) → IsCapped t → IsCapped (close_all ids t)
unfolding close_all
close_all-IsCapped [] t h = h
close_all-IsCapped (id ∷ ids) t h = close_all-IsCapped ids _ (close_group-IsCapped id t h)

made_room-IsCapped :
    (group_type : String) (t : Table) → IsCapped t → IsCapped (made_room group_type t)
unfolding made_room
made_room-IsCapped group_type t h = elim (Bool-cases (is_volatile_type t.handlers group_type)) [
  | inl volatile ↦ rw volatile (close_all-IsCapped _ t h)
  | inr stable ↦ rw stable h
]

settle-IsCapped :
    (id : String) (g k : HostedGroup) (t : Table)
    → lookup id t.groups ≡ some g
    → IsSaved (stored g) k
    → IsCapped t
    → IsCapped (settle id k t)
unfolding settle stable_count is_stable
settle-IsCapped id g k t found saved h =
    let same : is_stable t.handlers k ≡ is_stable t.handlers g =
      ap (λ ty. if is_volatile_type t.handlers ty then 0 else 1) (saved_type g k saved) in
    let k' : HostedGroup = record k { effects = [] } in
    let sum = total-insert_old (is_stable t.handlers) id k' g t.groups found in
    let old : total (is_stable t.handlers) t.groups ≤ 50 = h.capped in
    record {
      distinct = insert-IsDistinct id k' t.groups h.distinct;
      capped = omega (arith, sum, same, old);
    }

on_group-IsCapped :
    (id : String) (f : HostedGroup → HostedGroup) (t : Table)
    → ((g : HostedGroup)
        → lookup id t.groups ≡ some g
        → IsSaved (stored g) (f (record g { effects = [] })))
    → IsCapped t
    → IsCapped (or_unchanged t (on_group id f t))
unfolding on_group or_unchanged
on_group-IsCapped id f t saves h = elim (Option-cases (lookup id t.groups)) [
  | inl absent ↦ rw (absent, on_group) h
  | inr (g, found) ↦
      rw (found, on_group)
        (settle-IsCapped id g (f (record g { effects = [] })) t found (saves g found) h)
]

-- A new group has its place, where it counts.
room_left :
    (row : GroupRow) (t : Table) {n : ℕ}
    → n ≡ total (is_stable t.handlers) t.groups + is_stable t.handlers (fresh_group t row false)
    → is_over_limit row.group_type t ≡ false
    → stable_count t ≤ max_hosted_groups
    → n ≤ max_hosted_groups
unfolding is_over_limit stable_count is_stable fresh_group
room_left row t sum room h = ground arith

inserted-IsCapped :
    (id : String) (row : GroupRow) (t t' : Table)
    → is_over_limit row.group_type t ≡ false
    → inserted id row t ≡ ok t'
    → IsStored t
    → IsCapped t
    → IsCapped t'
unfolding inserted is_over_limit stable_count
inserted-IsCapped id row t t' room e stored_ h = elim (Option-cases (lookup id t.rows)) [
  | inr (_, taken) ↦ err_is_no_ok _ _ (rw (taken, inserted) at e)
  | inl free ↦
      let g = fresh_group t row false in
      let next : Table = record t {
        groups = insert id g t.groups;
        rows = insert id (record { info = row; host_joined = false }) t.rows;
      } in
      let same : next ≡ t' = ap (got next) (rw (free, inserted) at e) in
      let absent = absent_of_rows id t stored_ free in
      let sum = total-insert_new (is_stable t.handlers) id g t.groups absent in
      subst IsCapped same (record {
        distinct = insert-IsDistinct id g t.groups h.distinct;
        capped = room_left row t sum room h.capped;
      })
]

accepted-IsCapped :
    (accepts : Bool) (id : String) (row : GroupRow) (t : Table)
    → IsCapped t
    → IsCapped (accepted accepts id row t).0
unfolding accepted stable_count
accepted-IsCapped accepts id row t h =
    let asked : Table = record t { outbox = (id, Effect.on_create) ∷ t.outbox } in
    let kept : IsCapped asked = record { distinct = h.distinct; capped = h.capped } in
    elim (Option-cases (lookup row.group_type t.handlers)) [
      | inl none_there ↦ rw (none_there, accepted) h
      | inr (_, there) ↦ elim (Bool-cases accepts) [
        | inl agrees ↦ rw (there, accepted, agrees) kept
        | inr refuses ↦ rw (there, accepted, refuses) (close_group-IsCapped id asked kept)
      ]
    ]

create_group-IsCapped :
    (accepts : Bool) (id name group_type group_context : String) (max : ℤ) (t : Table)
    → IsStored t
    → IsCapped t
    → IsCapped (create_group accepts id name group_type group_context max t).0
unfolding create_group new_row
create_group-IsCapped accepts id name group_type group_context max t stored_ h =
    let row = new_row name group_type group_context max in
    let t' = made_room group_type t in
    let h' = made_room-IsCapped group_type t h in
    let stored' = made_room-IsStored group_type t stored_ in
    elim (Bool-cases (is_over_limit group_type t')) [
      | inl over ↦ rw over h'
      | inr room ↦ elim (Result-cases (inserted id row t')) [
        | inr (e, failed) ↦ rw (room, failed, create_group) h'
        | inl (t'', made) ↦
            rw (room, made, create_group)
              (accepted-IsCapped accepts id row t''
                (inserted-IsCapped id row t' t'' room made stored' h'))
      ]
    ]

-- A loaded group counts as the one whose row it comes from.
total-loaded :
    (t : Table) (gs : Map HostedGroup)
    → total (is_stable t.handlers) (loaded t (stored_all gs)) ≡ total (is_stable t.handlers) gs
unfolding total loaded stored_all is_stable fresh_group stored
total-loaded t [] = refl
total-loaded t ((id, g) ∷ gs) = ap (◌+◌ (is_stable t.handlers g)) (total-loaded t gs)

loaded_absent :
    (t : Table) (id : String) (gs : Map HostedGroup)
    → lookup id gs ≡ none
    → lookup id (loaded t (stored_all gs)) ≡ none
unfolding lookup loaded stored_all
loaded_absent t id [] e = refl
loaded_absent t id ((j, g) ∷ gs) e = elim (Bool-cases (j == id)) [
  | inl hit ↦ absurd (some-ne-none _ (rw hit at e))
  | inr miss ↦ rw miss (loaded_absent t id gs (rw miss at e))
]

loaded-IsDistinct :
    (t : Table) (gs : Map HostedGroup) → IsDistinct gs → IsDistinct (loaded t (stored_all gs))
unfolding loaded stored_all
loaded-IsDistinct t [] d = tt
loaded-IsDistinct t ((id, g) ∷ gs) (new_id, d) =
    (loaded_absent t id gs new_id, loaded-IsDistinct t gs d)

restart-IsCapped : (t : Table) → IsStored t → IsCapped t → IsCapped (restart t)
unfolding restart stable_count
restart-IsCapped t stored_ h =
    let from_rows : Map StoredGroup → Table = λ rows. record t { groups = loaded t rows } in
    subst (λ rows. IsCapped (from_rows rows)) (sym stored_.rows_match)
      (record {
        distinct = loaded-IsDistinct t t.groups h.distinct;
        capped = omega (arith, total-loaded t t.groups, h.capped);
      })

act-IsCapped :
    (op : TableOp) (t : Table) → IsSmall t → IsStored t → IsCapped t → IsCapped (act op t)
unfolding act
act-IsCapped (TableOp.creates accepts id name group_type group_context max) t small stored_ h =
    create_group-IsCapped accepts id name group_type group_context max t stored_ h
act-IsCapped (TableOp.closes id) t small stored_ h = close_group-IsCapped id t h
act-IsCapped (TableOp.restores id) t small stored_ h =
    subst IsCapped (sym (restore_group_lem id t stored_)) h
act-IsCapped (TableOp.changes id c) t small stored_ h =
    on_group-IsCapped id (change c) t (change_saves id c t small) h
act-IsCapped TableOp.restarts t small stored_ h = restart-IsCapped t stored_ h

-- At no time are there more than 50 hosted groups that are not volatile, nor two of one id, whatever
-- groups are created, closed, restored and changed, and also after new starts; as long as this holds
-- at the outset, the rows match the groups there, and no group has 2 ^ 63 - 1 members.
pub act_all-IsCapped :
    (t : Table) (ops : List TableOp)
    → AllSmall t ops
    → IsStored t
    → IsCapped t
    → IsCapped (act_all t ops)
unfolding act_all AllSmall
act_all-IsCapped t [] small stored_ h = h
act_all-IsCapped t (op ∷ ops) small stored_ h =
    act_all-IsCapped (act op t) ops small.1 (act-IsStored op t small.0 stored_)
      (act-IsCapped op t small.0 stored_ h)
