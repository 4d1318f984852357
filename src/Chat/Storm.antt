-- ===== src/Chat/Storm.antt =====
-- internal/group_types/chat: the nodes of one room with the messages that are under way between them.
pub mod Sends
pub mod Passing
pub mod Forever
use goop.Base.{
  ℕ, zero, suc, Bool, true, false, ◌||◌, String, List, [], ◌∷◌, ◌++◌, none, some, if◌then◌else◌,
  ◌==◌, ◌≡◌, ◌≢◌, refl, sym, ap, ap₂, ◌∙◌, arith, eq_iff, inl, inr, Bool-cases, subst,
}
use goop.Base.Map.{Map, lookup, insert, lookup-insert, lookup-insert_self}
use goop.Chat.Rooms.{
  Manager, Member, Message, RoomState, ChatMsg, Sent, group_members, handle_incoming, send_message,
  message_msg, set_room, no_message,
}
use goop.Chat.Forwarding.{forwards, forwarded, handle_incoming-forwarded, send_message-forwarded}
use goop.Chat.History.{add}

pub record Flight : Type 0 where
  pub from : String
  pub sent : Sent

pub record Net : Type 0 where
  pub nodes : Map Manager
  pub flights : List Flight

unfoldable pub from_node : String → List Sent → List Flight
from_node p [] = []
from_node p (s ∷ ss) = record { from = p; sent = s } ∷ from_node p ss

-- The oldest message arrives. What the node sends is under way after it.
unfoldable pub arrive : Flight → List Flight → Net → Net
arrive f fs net = elim (lookup f.sent.to net.nodes) [
  | none ↦ record net { flights = fs }
  | some m ↦
      let m' =
        handle_incoming f.from f.sent.group f.sent.sub f.sent.body (record m { sent = [] }) in
      record { nodes = insert f.sent.to m' net.nodes; flights = fs ++ from_node f.sent.to m'.sent }
]

unfoldable pub deliver : Net → Net
deliver net = elim net.flights [ [] ↦ net | f ∷ fs ↦ arrive f fs net ]

unfoldable pub deliveries : ℕ → Net → Net
deliveries zero net = net
deliveries (suc n) net = deliveries n (deliver net)

unfoldable pub is_member : String → List Member → Bool
is_member p [] = false
is_member p (q ∷ qs) = q.peer_id == p || is_member p qs

-- The node of the member `p`, which has the room and knows its members.
pub record IsNode (id p : String) (ps : List Member) (m : Manager) : Type 0 where
  pub is_self : m.self_id ≡ p
  pub knows : group_members id m ≡ ps
  pub has_room : (rs : RoomState) × (lookup id m.rooms ≡ some rs)

-- Every member has a node.
abbrev pub IsRoom : String → List Member → Map Manager → Type 0
IsRoom id ps nodes =
    (p : String)
    → is_member p ps ≡ true
    → (m : Manager) × (lookup p nodes ≡ some m) × IsNode id p ps m

-- Under way is a message of the room, from one member to another.
pub record IsUnderWay (id : String) (ps : List Member) (f : Flight) : Type 0 where
  pub of_room : f.sent.group ≡ id
  pub is_msg : f.sent.sub ≡ "msg"
  pub has_message : (x : Message) × (f.sent.body.message ≡ some x)
  pub to_member : is_member f.sent.to ps ≡ true
  pub differs : f.from ≢ f.sent.to

abbrev pub AllUnderWay : String → List Member → List Flight → Type 0
AllUnderWay id ps [] = Unit
AllUnderWay id ps (f ∷ fs) = IsUnderWay id ps f × AllUnderWay id ps fs
