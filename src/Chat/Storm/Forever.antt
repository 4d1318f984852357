-- ===== src/Chat/Storm/Forever.antt =====
-- internal/group_types/chat: the deliveries in a room of three or more members.
use goop.Base.{
  ℕ, zero, suc, false, String, List, [], ◌∷◌, ◌++◌, none, some, ◌≡◌, refl, sym, ap, ap₂, ◌∙◌, subst,
}
use goop.Base.Map.{Map, lookup, insert}
use goop.Chat.Rooms.{
  Manager, Member, Message, RoomState, group_members, handle_incoming, send_message, message_msg,
}
use goop.Chat.Forwarding.{forwarded, handle_incoming-forwarded, send_message-forwarded}
use goop.Chat.Storm.{IsNode, Flight, IsRoom, Net, arrive, deliver, deliveries, from_node}
use goop.Chat.Storm.Sends.{HasThree, is_nothing}
use goop.Chat.Storm.Passing.{IsStormy, passed-IsStormy}

-- The node to which a message comes, with what it sent before left out.
abbrev fresh : Manager → Manager
fresh m = record m { sent = [] }

arrive-forwarded :
    (id : String) (f : Flight) (fs : List Flight) (nodes : Map Manager) (m : Manager) (x : Message)
    (rs : RoomState)
    → lookup f.sent.to nodes ≡ some m
    → f.sent.group ≡ id
    → f.sent.sub ≡ "msg"
    → f.sent.body.message ≡ some x
    → lookup id m.rooms ≡ some rs
    → let m' = forwarded f.from id f.sent.body x rs (fresh m) in
      arrive f fs (record { nodes = nodes; flights = f ∷ fs })
      ≡ record { nodes = insert f.sent.to m' nodes; flights = fs ++ from_node f.sent.to m'.sent }
unfolding arrive
arrive-forwarded id f fs nodes m x rs found g sub e r =
    let after : Manager → Net = λ m'. record {
      nodes = insert f.sent.to m' nodes;
      flights = fs ++ from_node f.sent.to m'.sent;
    } in
    ap
      (λ o. elim o [
        | none ↦ record { nodes = nodes; flights = fs }
        | some n ↦ after (handle_incoming f.from f.sent.group f.sent.sub f.sent.body (fresh n))
      ])
      found
    ∙ ap₂ (λ i t. after (handle_incoming f.from i t f.sent.body (fresh m))) g sub
    ∙ ap after (handle_incoming-forwarded f.from id f.sent.body x rs (fresh m) e r)

fresh-IsNode :
    (id p : String) (ps : List Member) (m : Manager) → IsNode id p ps m → IsNode id p ps (fresh m)
unfolding group_members
fresh-IsNode id p ps m h = record { is_self = h.is_self; knows = h.knows; has_room = h.has_room }

deliver-IsStormy :
    (id : String) (ps : List Member) (nodes : Map Manager) (fs : List Flight)
    → HasThree ps
    → IsStormy id ps (record { nodes = nodes; flights = fs })
    → IsStormy id ps (deliver (record { nodes = nodes; flights = fs }))
unfolding deliver
deliver-IsStormy id ps nodes [] three h = h
deliver-IsStormy id ps nodes (f ∷ fs) three h =
    let u = h.under_way.0 in
    let (m, found, is_node) = h.room f.sent.to u.to_member in
    let (x, e) = u.has_message in
    let (rs, r) = is_node.has_room in
    subst (IsStormy id ps)
      (sym (arrive-forwarded id f fs nodes m x rs found u.of_room u.is_msg e r))
      (passed-IsStormy id f.from f.sent.to ps f.sent.body x rs (fresh m) fs nodes three refl e
        (fresh-IsNode id f.sent.to ps m is_node) h.room h.under_way.1)

deliveries-IsStormy :
    (id : String) (ps : List Member) (n : ℕ) (net : Net)
    → HasThree ps
    → IsStormy id ps net
    → IsStormy id ps (deliveries n net)
unfolding deliveries
deliveries-IsStormy id ps zero net three h = h
deliveries-IsStormy id ps (suc n) net three h =
    deliveries-IsStormy id ps n (deliver net) three
      (deliver-IsStormy id ps net.nodes net.flights three h)

-- A member sends a message while nothing is under way.
unfoldable pub post : String → String → Message → Manager → Map Manager → Net
post id p x m nodes =
    let m' = (send_message id x (fresh m)).0 in
    record { nodes = insert p m' nodes; flights = from_node p m'.sent }

-- Where the members of a room are at least three, and each of them has the room and knows all, one
-- message of one of them never comes to rest: however many deliveries there were, a message is under
-- way. Every member that receives it sends it on to all but itself and the one that it came from.
pub storm :
    (id p : String) (ps : List Member) (x : Message) (m : Manager) (nodes : Map Manager) (n : ℕ)
    → HasThree ps
    → IsRoom id ps nodes
    → IsNode id p ps m
    → is_nothing (deliveries n (post id p x m nodes)).flights ≡ false
unfolding post message_msg
storm id p ps x m nodes n three r h =
    let (rs, found) = h.has_room in
    let net = post id p x m nodes in
    let start : IsStormy id ps net =
      subst
        (λ m'. IsStormy id ps (record { nodes = insert p m' nodes; flights = from_node p m'.sent }))
        (sym (send_message-forwarded id x rs (fresh m) found))
        (passed-IsStormy id "" p ps (message_msg x) x rs (fresh m) [] nodes three refl refl
          (fresh-IsNode id p ps m h) r tt) in
    (deliveries-IsStormy id ps n net three start).busy
