-- ===== src/Tests/GroupTable.antt =====
-- internal/group, the table of hosted groups, on concrete inputs.
use goop.Base.{◌≡◌, ◌-◌, ◌^◌, ◌<◌, refl, true, List, [], ◌∷◌, ok, arith}
use goop.Base.Int.{pos, incr}
use goop.Base.Map.{lookup, erase, insert, total}
use goop.Groups.{
  Op, announce_raise, broadcast_members, broadcast_meta, broadcast_to_group, call_handler, emit,
  host_enters, infos, is_volatile, join_own_group, may_host_join, member_list, must_grow, or_same,
  raised, send_each, step,
}
use goop.Groups.Table.{
  Table, TableOp, Change, act_all, create_group, restart, new_row, accepted, act, all_members,
  as_stored, change, close_all, close_group, closed, fresh_group, ids_of_type, inserted,
  is_over_limit, is_stable, is_volatile_type, made_room, members_of, on_group, or_unchanged,
  sent_by, settle, stable_count, stored, write, write_members, write_role, writes,
}
use goop.Groups.Table.Rows.{IsStored, AllSmall, stored_all, restart-act_all, IsSmall}
use goop.Groups.Table.Capacity.{IsCapped, act_all-IsCapped}
use goop.Groups.Table.Volatile.{IsOnly, create_group-IsOnly}

abbrev nothing : Table
nothing = record {
  self_id = "me";
  handlers = ("listen", record { host_can_join = true; volatile = true }) ∷ [];
  groups = [];
  rows = [];
  member_rows = [];
  outbox = [];
}

-- A club that the host enters, and two rooms, of which the second replaces the first.
abbrev week : List TableOp
week =
    TableOp.creates true "g1" "Club" "files" "" (pos 5)
    ∷ TableOp.changes "g1" (Change.steps (Op.host_joins 3))
    ∷ TableOp.creates true "r1" "Room" "listen" "" (pos 0)
    ∷ TableOp.creates true "r2" "Other room" "listen" "" (pos 0)
    ∷ TableOp.closes "g7"
    ∷ []

nothing-IsStored : IsStored nothing
unfolding stored_all
nothing-IsStored = record { rows_match = refl }

nothing-IsCapped : IsCapped nothing
unfolding stable_count total
nothing-IsCapped = record { distinct = tt; capped = omega arith }

week-AllSmall : AllSmall nothing week
unfolding create_group made_room is_volatile_type is_volatile close_all ids_of_type is_over_limit
    stable_count total is_stable inserted new_row fresh_group accepted or_unchanged close_group
    closed send_each member_list infos call_handler emit lookup insert erase sent_by AllSmall
    IsSmall act change on_group settle writes write all_members write_members members_of as_stored
    write_role step join_own_group may_host_join must_grow raised host_enters announce_raise
    broadcast_meta broadcast_to_group broadcast_members or_same stored incr
week-AllSmall =
    let small : 0 < 2 ^ 63 - 1 = omega arith in
    (tt, ((small, tt), ((small, tt), ((small, (small, tt)), ((small, (small, tt)), tt)))))

restart-act_all_example :
    stored_all (restart (act_all nothing week)).groups ≡ stored_all (act_all nothing week).groups
restart-act_all_example = restart-act_all nothing week nothing-IsStored week-AllSmall

act_all-IsCapped_example : IsCapped (act_all nothing week)
act_all-IsCapped_example =
    act_all-IsCapped nothing week week-AllSmall nothing-IsStored nothing-IsCapped

abbrev with_room : Table
with_room = (create_group true "r1" "Room" "listen" "" (pos 0) nothing).0

room_is_volatile : is_volatile_type with_room.handlers "listen" ≡ true
unfolding create_group made_room is_volatile_type is_volatile close_all ids_of_type is_over_limit
    stable_count total is_stable inserted new_row fresh_group accepted or_unchanged close_group
    closed send_each member_list infos call_handler emit lookup insert erase sent_by
room_is_volatile = refl

replaced : (create_group true "r2" "Other room" "listen" "" (pos 0) with_room).1 ≡ ok tt
unfolding create_group made_room is_volatile_type is_volatile close_all ids_of_type is_over_limit
    stable_count total is_stable inserted new_row fresh_group accepted or_unchanged close_group
    closed send_each member_list infos call_handler emit lookup insert erase sent_by
replaced = refl

create_group-IsOnly_example :
    IsOnly "r2" "listen"
      (new_row "Other room" "listen" "" (pos 0))
      (create_group true "r2" "Other room" "listen" "" (pos 0) with_room).0
create_group-IsOnly_example =
    create_group-IsOnly true "r2" "Other room" "listen" "" (pos 0) with_room room_is_volatile
      replaced
