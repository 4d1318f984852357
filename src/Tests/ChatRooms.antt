-- ===== src/Tests/ChatRooms.antt =====
-- internal/group_types/chat, the rooms, on concrete inputs.
use goop.Base.{◌≡◌, ◌≢◌, refl, false, String, List, [], ◌∷◌, some, eq_iff, arith}
use goop.Base.Map.{Map, lookup}
use goop.Chat.History.{add}
use goop.Chat.Rooms.{
  Manager, Member, Message, RoomState, group_members, handle_incoming, new_room, no_message,
  message_msg,
}
use goop.Chat.Forwarding.{forwards, handle_incoming_lem}
use goop.Chat.Storm.{IsNode, IsRoom, deliveries, is_member}
use goop.Chat.Storm.Sends.{HasThree, is_nothing}
use goop.Chat.Storm.Forever.{post, storm}

abbrev ann : String
ann = "ann"

abbrev bob : String
bob = "bob"

abbrev cat : String
cat = "cat"

abbrev member : String → Member
member p = record { peer_id = p; name = p }

abbrev everyone : List Member
everyone = member ann ∷ member bob ∷ member cat ∷ []

abbrev lounge : RoomState
lounge = new_room "r" "Lounge"

abbrev at : String → Manager
at p = record {
  self_id = p;
  rooms = ("r", lounge) ∷ [];
  hosted = [];
  client = ("r", everyone) ∷ [];
  sent = [];
  published = [];
}

abbrev nodes : Map Manager
nodes = (ann, at ann) ∷ (bob, at bob) ∷ (cat, at cat) ∷ []

abbrev hello : Message
hello = record { id = "1-ann"; from = ann; from_name = "Ann"; text = "hello"; timestamp = 1 }

ann_is_not_bob : ann ≢ bob
ann_is_not_bob e = cc ((eq_iff ann bob).1 e)

ann_is_not_cat : ann ≢ cat
ann_is_not_cat e = cc ((eq_iff ann cat).1 e)

bob_is_not_cat : bob ≢ cat
bob_is_not_cat e = cc ((eq_iff bob cat).1 e)

three : HasThree everyone
unfolding is_member
three = record {
  first = ann;
  second = bob;
  third = cat;
  first_in = refl;
  second_in = refl;
  third_in = refl;
  first_second = ann_is_not_bob;
  first_third = ann_is_not_cat;
  second_third = bob_is_not_cat;
}

at-IsNode : (p : String) → IsNode "r" p everyone (at p)
unfolding group_members goop.Chat.Rooms.or_none lookup
at-IsNode p = record { is_self = refl; knows = refl; has_room = (lounge, refl) }

nodes-IsRoom : IsRoom "r" everyone nodes
unfolding is_member lookup
nodes-IsRoom p inside =
    (at p, ground (arith, inside, eq_iff ann p, eq_iff bob p, eq_iff cat p), at-IsNode p)

storm_example : is_nothing (deliveries 1000 (post "r" ann hello (at ann) nodes)).flights ≡ false
storm_example = storm "r" ann everyone hello (at ann) nodes 1000 three nodes-IsRoom (at-IsNode ann)

handle_incoming_lem_example :
    let m' = handle_incoming ann "r" "msg" (message_msg hello) (at bob) in
    (lookup "r" m'.rooms ≡ some (record lounge { history = add no_message lounge.history hello }))
    × (m'.sent ≡ forwards bob (group_members "r" (at bob)) "r" "msg" (message_msg hello) ann)
    × (m'.published ≡ ("r", "msg", message_msg hello) ∷ [])
unfolding lookup message_msg
handle_incoming_lem_example =
    handle_incoming_lem ann "r" (message_msg hello) hello lounge (at bob) refl refl
