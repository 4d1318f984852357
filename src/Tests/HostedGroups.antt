-- ===== src/Tests/HostedGroups.antt =====
-- internal/group, a hosted group, on concrete inputs.
use goop.Base.{◌≡◌, refl, true, false, List, [], ◌∷◌, some, arith}
use goop.Base.Int.{pos}
use goop.Base.Map.{lookup}
use goop.Base.Json.{Value}
use goop.Groups.{HostedGroup, Op, run, seats, handle_relay}
use goop.Groups.Broadcast.{has, last_seen, relay, handle_relay-reaches}
use goop.Groups.Limit.{IsWithin, run-IsWithin}
use goop.Groups.Views.{IsCurrent, run-IsCurrent}

abbrev club : HostedGroup
club = record {
  self_id = "me";
  handler = some (record { host_can_join = true; volatile = false });
  info = record {
    name = "Club";
    group_type = "files";
    group_context = "";
    default_role = "";
    roles = [];
    max_members = pos 2;
  };
  members = [];
  host_joined = false;
  host_joined_at = 0;
  effects = [];
}

-- Three peers want to join a group of two, then the host enters, and one member is kicked.
abbrev evening : List Op
evening =
    Op.joins "a" 1
    ∷ Op.joins "b" 2
    ∷ Op.joins "c" 3
    ∷ Op.relays "b" "msg" (Value.string "hello")
    ∷ Op.host_joins 4
    ∷ Op.kicks "a"
    ∷ []

club-IsWithin : IsWithin club
unfolding seats
club-IsWithin = record { within = λ _. omega arith }

club-IsCurrent : IsCurrent club
unfolding has lookup
club-IsCurrent = record { current = λ p a b h. cc }

run-IsWithin_example : IsWithin (run club evening)
run-IsWithin_example = run-IsWithin club evening club-IsWithin

run-IsCurrent_example : IsCurrent (run club evening)
run-IsCurrent_example = run-IsCurrent club evening club-IsCurrent

-- A club with the member "a"; "z" is none.
abbrev pair : HostedGroup
pair = record club { members = ("a", record { role = "viewer"; joined_at = 1 }) ∷ [] }

handle_relay-reaches_example :
    last_seen relay "a" (handle_relay pair "z" "msg" (Value.string "hello")).effects
    ≡ some ("msg", Value.string "hello")
unfolding has lookup
handle_relay-reaches_example =
    handle_relay-reaches pair "z" "msg" "a" (Value.string "hello") refl refl refl
