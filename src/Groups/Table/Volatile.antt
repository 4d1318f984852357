-- ===== src/Groups/Table/Volatile.antt =====
-- internal/group, CreateGroup: a group of a volatile type replaces the ones of its type.
use mathlib.Core.Option.{some_inj, some-ne-none}
use goop.Base.{
  Bool, true, false, ◌||◌, String, List, [], ◌∷◌, some, ◌==◌, eq_iff, ok, got, err_is_no_ok, ◌≡◌,
  ◌≢◌, refl, Bool-cases, Option-cases, Result-cases, inl, inr, ap, sym, ◌∙◌, subst, arith,
}
use goop.Base.Int.{ℤ}
use goop.Base.Map.{Map, lookup, insert, erase, lookup-erase, lookup-insert, lookup-insert_self}
use goop.Groups.{HostedGroup, GroupRow}
use goop.Groups.Table.{
  Table, close_group, or_unchanged, ids_of_type, close_all, is_volatile_type, new_row, fresh_group,
  inserted, accepted, made_room, is_over_limit, create_group,
}

true_ne_false : true ≢ false
true_ne_false h = cc

unfoldable has_id : String → List String → Bool
has_id j [] = false
has_id j (id ∷ ids) = id == j || has_id j ids

-- All groups of the type are among the ids.
record AreListed (group_type : String) (ids : List String) (t : Table) : Type 0 where
  listed :
      (j : String) (g : HostedGroup)
      → lookup j t.groups ≡ some g
      → g.info.group_type ≡ group_type
      → has_id j ids ≡ true

ids_of_type_complete :
    (group_type j : String) (g : HostedGroup) (gs : Map HostedGroup)
    → lookup j gs ≡ some g
    → g.info.group_type ≡ group_type
    → has_id j (ids_of_type group_type gs) ≡ true
unfolding has_id ids_of_type lookup
ids_of_type_complete group_type j g [] found same = cc
ids_of_type_complete group_type j g ((i, k) ∷ gs) found same = elim (Bool-cases (i == j)) [
  | inl hit ↦
      let here : k ≡ g = some_inj.0 (rw hit at found) in
      let right : (k.info.group_type == group_type) ≡ true =
        (eq_iff k.info.group_type group_type).1 (ap (λ x. x.info.group_type) here ∙ same) in
      rw right (ground (arith, hit))
  | inr miss ↦
      let rest = ids_of_type_complete group_type j g gs (rw miss at found) same in
      elim (Bool-cases (k.info.group_type == group_type)) [
        | inl right ↦ rw right (ground (arith, rest))
        | inr wrong ↦ rw wrong rest
      ]
]

listed_later :
    (id j : String) (ids : List String) → id ≢ j → has_id j (id ∷ ids) ≡ true → has_id j ids ≡ true
unfolding has_id
listed_later id j ids other h = ground (arith, eq_iff id j)

-- What is left after an `erase` was there before, at another place.
erased :
    (id j : String) (g : HostedGroup) (gs : Map HostedGroup)
    → lookup j (erase id gs) ≡ some g
    → (id ≢ j) × (lookup j gs ≡ some g)
erased id j g gs found =
    let looked = sym (lookup-erase id j gs) ∙ found in
    elim (Bool-cases (id == j)) [
      | inl same ↦ absurd (some-ne-none g (sym (rw same at looked)))
      | inr other ↦ (λ e. true_ne_false (sym ((eq_iff id j).1 e) ∙ other), rw other at looked)
    ]

close_group-AreListed :
    (group_type id : String) (ids : List String) (t : Table)
    → AreListed group_type (id ∷ ids) t
    → AreListed group_type ids (or_unchanged t (close_group id t))
unfolding close_group or_unchanged has_id
close_group-AreListed group_type id ids t h = elim (Option-cases (lookup id t.groups)) [
  | inl absent ↦
      rw (absent, close_group)
        (record {
          listed = λ j g found same.
              listed_later id j ids
                (λ e.
                  some-ne-none g
                    (sym (subst (λ i. lookup i t.groups ≡ some g) (sym e) found) ∙ absent))
                (h.listed j g found same);
        })
  | inr (_, there) ↦
      rw (there, close_group)
        (record {
          listed = λ j g found same.
              let (other, kept) = erased id j g t.groups found in
              listed_later id j ids other (h.listed j g kept same);
        })
]

close_all-AreListed :
    (group_type : String) (ids : List String) (t : Table)
    → AreListed group_type ids t
    → AreListed group_type [] (close_all ids t)
unfolding close_all
close_all-AreListed group_type [] t h = h
close_all-AreListed group_type (id ∷ ids) t h =
    close_all-AreListed group_type ids _ (close_group-AreListed group_type id ids t h)

made_room-AreListed :
    (group_type : String) (t : Table)
    → is_volatile_type t.handlers group_type ≡ true
    → AreListed group_type [] (made_room group_type t)
unfolding made_room
made_room-AreListed group_type t volatile =
    let all : AreListed group_type (ids_of_type group_type t.groups) t = record {
      listed = λ j g found same. ids_of_type_complete group_type j g t.groups found same;
    } in
    rw volatile (close_all-AreListed group_type _ t all)

-- The new group is the only one of its type.
pub record IsOnly (id group_type : String) (row : GroupRow) (t : Table) : Type 0 where
  pub one : (g : HostedGroup) × (lookup id t.groups ≡ some g) × (g.info ≡ row)
  pub no_other :
      (j : String) (g : HostedGroup)
      → lookup j t.groups ≡ some g
      → g.info.group_type ≡ group_type
      → j ≡ id

inserted-IsOnly :
    (id group_type : String) (row : GroupRow) (t t' : Table)
    → AreListed group_type [] t
    → inserted id row t ≡ ok t'
    → IsOnly id group_type row t'
unfolding inserted has_id fresh_group
inserted-IsOnly id group_type row t t' none_left e = elim (Option-cases (lookup id t.rows)) [
  | inr (_, taken) ↦ err_is_no_ok _ _ (rw (taken, inserted) at e)
  | inl free ↦
      let g = fresh_group t row false in
      let next : Table = record t {
        groups = insert id g t.groups;
        rows = insert id (record { info = row; host_joined = false }) t.rows;
      } in
      let same : next ≡ t' = ap (got next) (rw (free, inserted) at e) in
      subst (IsOnly id group_type row) same (record {
        one = (g, lookup-insert_self id g t.groups, refl);
        no_other = λ j k found right. elim (Bool-cases (id == j)) [
          | inl hit ↦ sym ((eq_iff id j).0 hit)
          | inr miss ↦
              let looked = sym (lookup-insert id j g t.groups) ∙ found in
              absurd (true_ne_false (sym (none_left.listed j k (rw miss at looked) right)))
        ];
      })
]

accepted-IsOnly :
    (accepts : Bool) (id group_type : String) (row : GroupRow) (t : Table)
    → (accepted accepts id row t).1 ≡ ok tt
    → IsOnly id group_type row t
    → IsOnly id group_type row (accepted accepts id row t).0
unfolding accepted
accepted-IsOnly accepts id group_type row t e h =
    elim (Option-cases (lookup row.group_type t.handlers)) [
      | inl none_there ↦ rw (none_there, accepted) h
      | inr (_, there) ↦ elim (Bool-cases accepts) [
        | inl agrees ↦ rw (there, accepted, agrees) (record { one = h.one; no_other = h.no_other })
        | inr refuses ↦ err_is_no_ok _ tt (rw (there, accepted, refuses) at e)
      ]
    ]

-- A CreateGroup of a volatile type that succeeds leaves the new group, as it was asked for, as the
-- only hosted one of its type.
pub create_group-IsOnly :
    (accepts : Bool) (id name group_type group_context : String) (max : ℤ) (t : Table)
    → is_volatile_type t.handlers group_type ≡ true
    → (create_group accepts id name group_type group_context max t).1 ≡ ok tt
    → IsOnly id group_type
        (new_row name group_type group_context max)
        (create_group accepts id name group_type group_context max t).0
unfolding create_group
create_group-IsOnly accepts id name group_type group_context max t volatile e =
    let row = new_row name group_type group_context max in
    let t' = made_room group_type t in
    elim (Bool-cases (is_over_limit group_type t')) [
      | inl over ↦ err_is_no_ok _ tt (rw over at e)
      | inr room ↦ elim (Result-cases (inserted id row t')) [
        | inr (f, failed) ↦ err_is_no_ok f tt (rw (room, failed, create_group) at e)
        | inl (t'', made) ↦
            let only =
              inserted-IsOnly id group_type row t' t'' (made_room-AreListed group_type t volatile)
                made in
            rw (room, made, create_group)
              (accepted-IsOnly accepts id group_type row t'' (rw (room, made, create_group) at e)
                only)
      ]
    ]
