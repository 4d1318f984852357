-- ===== src/Chat/Rooms.antt =====
-- internal/group_types/chat: the rooms of a node (manager.go, handler.go and events.go) over the groups
-- and the message queue. A method is one step. A topic is its group and its last part; what `json`
-- finds in a payload is an argument, and so are clock and ids. Peer ids have at least 8 bytes.
use goop.Base.{
  ℕ, Bool, true, false, ◌||◌, String, List, [], ◌∷◌, ◌++◌, Option, none, some, if◌then◌else◌, ◌==◌,
}
use goop.Base.Map.{Map, lookup, insert, erase}
use goop.Chat.History.{History, empty, add, all}

pub record Message : Type 0 where
  pub id : String
  pub from : String
  pub from_name : String
  pub text : String
  pub timestamp : ℕ

pub record Member : Type 0 where
  pub peer_id : String
  pub name : String

pub record Room : Type 0 where
  pub id : String
  pub name : String
  pub description : String
  pub members : List Member

abbrev pub no_message : Message
no_message = record { id = ""; from = ""; from_name = ""; text = ""; timestamp = 0 }

pub record RoomState : Type 0 where
  pub info : Room
  pub history : History no_message

pub record ChatMsg : Type 0 where
  pub action : String
  pub message : Option Message
  pub messages : List Message
  pub members : List Member

pub record Sent : Type 0 where
  pub to : String
  pub group : String
  pub sub : String
  pub body : ChatMsg

-- `hosted` and `client` are what HostedGroupMembers and ClientGroupMembers say of the groups. `sent`
-- has the calls of Send in their order, `published` those of PublishLocal.
pub record Manager : Type 0 where
  pub self_id : String
  pub rooms : Map RoomState
  pub hosted : Map (List Member)
  pub client : Map (List Member)
  pub sent : List Sent
  pub published : List (String × String × ChatMsg)

unfoldable pub or_none : Option (List Member) → List Member
or_none none = []
or_none (some ms) = ms

unfoldable pub group_members : String → Manager → List Member
group_members id m = elim (or_none (lookup id m.hosted)) [
  | [] ↦ or_none (lookup id m.client)
  | p ∷ ps ↦ p ∷ ps
]

unfoldable pub resolve : (String → String) → List Member → List Member
resolve names [] = []
resolve names (p ∷ ps) =
    (if p.name == "" then record p { name = names p.peer_id } else p) ∷ resolve names ps

unfoldable pub resolve_members : (String → String) → String → Manager → List Member
resolve_members names id m = resolve names (group_members id m)

unfoldable pub send_to_peer : String → String → String → ChatMsg → Manager → Manager
send_to_peer to id sub msg m = record m {
  sent = m.sent ++ record { to = to; group = id; sub = sub; body = msg } ∷ [];
}

unfoldable pub send_each : List Member → String → String → ChatMsg → String → Manager → Manager
send_each [] id sub msg exclude m = m
send_each (p ∷ ps) id sub msg exclude m =
    if p.peer_id == m.self_id || p.peer_id == exclude
    then send_each ps id sub msg exclude m
    else send_each ps id sub msg exclude (send_to_peer p.peer_id id sub msg m)

unfoldable pub publish_local : String → String → ChatMsg → Manager → Manager
publish_local id sub msg m = record m { published = m.published ++ (id, sub, msg) ∷ [] }

unfoldable pub broadcast_to_room : String → String → ChatMsg → String → Manager → Manager
broadcast_to_room id sub msg exclude m =
    publish_local id sub msg (send_each (group_members id m) id sub msg exclude m)

unfoldable pub new_room : String → String → RoomState
new_room id name = record {
  info = record { id = id; name = name; description = ""; members = [] };
  history = empty no_message;
}

unfoldable pub set_room : String → RoomState → Manager → Manager
set_room id rs m = record m { rooms = insert id rs m.rooms }

unfoldable pub on_create : String → String → Manager → Manager
on_create id name m = set_room id (new_room id name) m

unfoldable pub members_msg : List Member → ChatMsg
members_msg ps = record { action = "members"; message = none; messages = []; members = ps }

unfoldable pub tell_members : (String → String) → String → Manager → Manager
tell_members names id m =
    broadcast_to_room id "members" (members_msg (resolve_members names id m)) "" m

unfoldable pub send_history : String → String → List Message → Manager → Manager
send_history p id [] m = m
send_history p id (x ∷ xs) m =
    send_to_peer p id "history"
      (record { action = "history"; message = none; messages = x ∷ xs; members = [] }) m

unfoldable pub on_join : (String → String) → String → String → Bool → Manager → Manager
on_join names id p is_host m = elim (lookup id m.rooms) [
  | none ↦ m
  | some rs ↦
      tell_members names id (if is_host then m else send_history p id (all no_message rs.history) m)
]

unfoldable pub on_leave : (String → String) → String → String → Bool → Manager → Manager
on_leave names id p is_host m = elim (lookup id m.rooms) [
  | none ↦ m
  | some rs ↦ tell_members names id m
]

unfoldable pub on_close : String → Manager → Manager
on_close id m = record m { rooms = erase id m.rooms }

-- What CreateRoom does after the group is there.
unfoldable pub describe : String → String → Manager → Manager
describe id description m = elim (lookup id m.rooms) [
  | none ↦ m
  | some rs ↦ set_room id (record rs { info = record rs.info { description = description } }) m
]

-- What JoinRoom does after the join, where `name` is that of the subscription.
unfoldable pub join_room : String → Option String → Manager → Manager
join_room id name m = elim (lookup id m.rooms) [
  | none ↦ set_room id (new_room id (elim name [ none ↦ id | some n ↦ n ])) m
  | some rs ↦ m
]

unfoldable pub message_msg : Message → ChatMsg
message_msg x = record { action = "msg"; message = some x; messages = []; members = [] }

unfoldable pub remember : String → Message → RoomState → Manager → Manager
remember id x rs m = set_room id (record rs { history = add no_message rs.history x }) m

-- Is the room there, and what the call does.
unfoldable pub send_message : String → Message → Manager → Manager × Bool
send_message id x m = elim (lookup id m.rooms) [
  | none ↦ (m, false)
  | some rs ↦ (broadcast_to_room id "msg" (message_msg x) "" (remember id x rs m), true)
]

unfoldable pub received : String → String → ChatMsg → Message → Manager → Manager
received from id msg x m = elim (lookup id m.rooms) [
  | none ↦ m
  | some rs ↦ broadcast_to_room id "msg" msg from (remember id x rs m)
]

unfoldable pub handle_incoming : String → String → String → ChatMsg → Manager → Manager
handle_incoming from id sub msg m =
    if sub == "msg" then elim msg.message [ none ↦ m | some x ↦ received from id msg x m ] else m
