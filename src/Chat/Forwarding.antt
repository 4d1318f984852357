-- ===== src/Chat/Forwarding.antt =====
-- internal/group_types/chat: to whom a node passes on a message of a room.
use goop.Base.{
  Bool, true, false, ◌||◌, String, List, [], ◌∷◌, ◌++◌, none, some, if◌then◌else◌, ◌==◌, ◌≡◌, sym,
  ap, ◌∙◌, arith,
}
use mathlib.Core.List.{append-nil, append_assoc}
use goop.Base.Map.{lookup, lookup-insert_self}
use goop.Chat.History.{add}
use goop.Chat.Rooms.{
  Manager, Member, Message, RoomState, ChatMsg, Sent, no_message, group_members, send_each,
  send_to_peer, send_message, message_msg, publish_local, broadcast_to_room, set_room, remember,
  received, handle_incoming,
}

-- The sends to the members but this node and the one that is excluded.
unfoldable pub forwards : String → List Member → String → String → ChatMsg → String → List Sent
forwards self [] id sub msg exclude = []
forwards self (p ∷ ps) id sub msg exclude =
    let rest = forwards self ps id sub msg exclude in
    if p.peer_id == self || p.peer_id == exclude
    then rest
    else record { to = p.peer_id; group = id; sub = sub; body = msg } ∷ rest

send_each_lem :
    (ps : List Member) (id sub : String) (msg : ChatMsg) (exclude : String) (m : Manager)
    → send_each ps id sub msg exclude m
      ≡ record m { sent = m.sent ++ forwards m.self_id ps id sub msg exclude }
unfolding send_each forwards send_to_peer
send_each_lem [] id sub msg exclude m = ap (λ x. record m { sent = x }) (sym (append-nil m.sent))
send_each_lem (p ∷ ps) id sub msg exclude m =
    let s : Sent = record { to = p.peer_id; group = id; sub = sub; body = msg } in
    let skipped = send_each_lem ps id sub msg exclude m in
    let sent = send_each_lem ps id sub msg exclude (send_to_peer p.peer_id id sub msg m) in
    ground (
      arith,
      skipped,
      sent,
      append_assoc m.sent (s ∷ []) (forwards m.self_id ps id sub msg exclude),
    )

unfoldable pub forwarded : String → String → ChatMsg → Message → RoomState → Manager → Manager
forwarded from id msg x rs m =
    let told = set_room id (record rs { history = add no_message rs.history x }) m in
    record told {
      sent = m.sent ++ forwards m.self_id (group_members id m) id "msg" msg from;
      published = m.published ++ (id, "msg", msg) ∷ [];
    }

broadcast-forwarded :
    (from id : String) (msg : ChatMsg) (x : Message) (rs : RoomState) (m : Manager)
    → broadcast_to_room id "msg" msg from (remember id x rs m) ≡ forwarded from id msg x rs m
unfolding broadcast_to_room publish_local remember forwarded set_room group_members
broadcast-forwarded from id msg x rs m =
    let rs' : RoomState = record rs { history = add no_message rs.history x } in
    ap (publish_local id "msg" msg)
      (send_each_lem (group_members id m) id "msg" msg from (set_room id rs' m))

received-forwarded :
    (from id : String) (msg : ChatMsg) (x : Message) (rs : RoomState) (m : Manager)
    → lookup id m.rooms ≡ some rs
    → received from id msg x m ≡ forwarded from id msg x rs m
unfolding received
received-forwarded from id msg x rs m r =
    ap (λ o. elim o [ none ↦ m | some s ↦ broadcast_to_room id "msg" msg from (remember id x s m) ])
      r
    ∙ broadcast-forwarded from id msg x rs m

pub handle_incoming-forwarded :
    (from id : String) (msg : ChatMsg) (x : Message) (rs : RoomState) (m : Manager)
    → msg.message ≡ some x
    → lookup id m.rooms ≡ some rs
    → handle_incoming from id "msg" msg m ≡ forwarded from id msg x rs m
unfolding handle_incoming
handle_incoming-forwarded from id msg x rs m e r =
    ap (λ o. elim o [ none ↦ m | some y ↦ received from id msg y m ]) e
    ∙ received-forwarded from id msg x rs m r

-- A node that has the room and gets a message of it adds it to the history, shows it to its own
-- browsers and sends it on, as it came, to every member but itself and the sender, whether or not
-- the node is the host.
pub handle_incoming_lem :
    (from id : String) (msg : ChatMsg) (x : Message) (rs : RoomState) (m : Manager)
    → msg.message ≡ some x
    → lookup id m.rooms ≡ some rs
    → let m' = handle_incoming from id "msg" msg m in
      (lookup id m'.rooms ≡ some (record rs { history = add no_message rs.history x }))
      × (m'.sent ≡ m.sent ++ forwards m.self_id (group_members id m) id "msg" msg from)
      × (m'.published ≡ m.published ++ (id, "msg", msg) ∷ [])
unfolding forwarded set_room
handle_incoming_lem from id msg x rs m e r =
    let same = handle_incoming-forwarded from id msg x rs m e r in
    (
      ap (λ n. lookup id n.rooms) same
          ∙ lookup-insert_self id (record rs { history = add no_message rs.history x }) m.rooms,
      ap (λ n. n.sent) same,
      ap (λ n. n.published) same,
    )

-- A node's own message goes to every member but itself.
pub send_message-forwarded :
    (id : String) (x : Message) (rs : RoomState) (m : Manager)
    → lookup id m.rooms ≡ some rs
    → (send_message id x m).0 ≡ forwarded "" id (message_msg x) x rs m
unfolding send_message
send_message-forwarded id x rs m r =
    ap
      (λ o.
        (elim o as (λ _. Manager × Bool) [
          | none ↦ (m, false)
          | some s ↦ (broadcast_to_room id "msg" (message_msg x) "" (remember id x s m), true)
        ]).0)
      r
    ∙ broadcast-forwarded "" id (message_msg x) x rs m
