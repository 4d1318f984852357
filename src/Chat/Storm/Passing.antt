-- ===== src/Chat/Storm/Passing.antt =====
-- internal/group_types/chat: a node that passes a message on.
use goop.Base.{
  false, String, List, [], ◌∷◌, ◌++◌, some, if◌then◌else◌, ◌==◌, ◌≡◌, refl, sym, ap, ap₂, ◌∙◌,
  arith, eq_iff, inl, inr, Bool-cases, subst,
}
use goop.Base.Map.{Map, lookup, insert, lookup-insert, lookup-insert_self}
use goop.Chat.Rooms.{
  Manager, Member, Message, RoomState, ChatMsg, group_members, set_room, no_message,
}
use goop.Chat.Forwarding.{forwards, forwarded}
use goop.Chat.History.{add}
use goop.Chat.Storm.{IsNode, AllUnderWay, Flight, IsRoom, Net, from_node}
use goop.Chat.Storm.Sends.{
  HasThree, Among-self, another, append-AllUnderWay, forwards-AllUnderWay, forwards_third,
  is_nothing,
}

-- A node that passed something on is a node of the room as before.
forwarded-IsNode :
    (id from p : String) (ps : List Member) (msg : ChatMsg) (x : Message) (rs : RoomState)
    (m : Manager)
    → IsNode id p ps m
    → IsNode id p ps (forwarded from id msg x rs m)
unfolding forwarded set_room group_members
forwarded-IsNode id from p ps msg x rs m h =
    let rs' : RoomState = record rs { history = add no_message rs.history x } in
    record {
      is_self = h.is_self;
      knows = h.knows;
      has_room = (rs', lookup-insert_self id rs' m.rooms);
    }

insert-IsRoom :
    (id p : String) (ps : List Member) (m : Manager) (nodes : Map Manager)
    → IsNode id p ps m
    → IsRoom id ps nodes
    → IsRoom id ps (insert p m nodes)
insert-IsRoom id p ps m nodes h r q inside = elim (Bool-cases (p == q)) [
  | inl e ↦ (
    m,
    ground (arith, lookup-insert p q m nodes),
    subst (λ x. IsNode id x ps m) ((eq_iff p q).0 e) h,
  )
  | inr e ↦
      let (n, found, is_node) = r q inside in
      (
        n,
        lookup-insert p q m nodes ∙ ap (λ b. if b then some m else lookup q nodes) e ∙ found,
        is_node,
      )
]

pub record IsStormy (id : String) (ps : List Member) (net : Net) : Type 0 where
  pub room : IsRoom id ps net.nodes
  pub under_way : AllUnderWay id ps net.flights
  pub busy : is_nothing net.flights ≡ false

append_busy : (fs gs : List Flight) → is_nothing gs ≡ false → is_nothing (fs ++ gs) ≡ false
append_busy [] gs h = h
append_busy (f ∷ fs) gs h = refl

forwarded-sent :
    (id from p : String) (ps : List Member) (msg : ChatMsg) (x : Message) (rs : RoomState)
    (m : Manager)
    → m.sent ≡ []
    → IsNode id p ps m
    → (forwarded from id msg x rs m).sent ≡ forwards p ps id "msg" msg from
unfolding forwarded set_room
forwarded-sent id from p ps msg x rs m none_yet h =
    ap (λ ss. ss ++ forwards m.self_id (group_members id m) id "msg" msg from) none_yet
    ∙ ap₂ (λ u v. forwards u v id "msg" msg from) h.is_self h.knows

-- What a node passes on keeps the net busy.
pub passed-IsStormy :
    (id from p : String) (ps : List Member) (msg : ChatMsg) (x : Message) (rs : RoomState)
    (m : Manager) (fs : List Flight) (nodes : Map Manager)
    → HasThree ps
    → m.sent ≡ []
    → msg.message ≡ some x
    → IsNode id p ps m
    → IsRoom id ps nodes
    → AllUnderWay id ps fs
    → let m' = forwarded from id msg x rs m in
      IsStormy id ps (record { nodes = insert p m' nodes; flights = fs ++ from_node p m'.sent })
passed-IsStormy id from p ps msg x rs m fs nodes three none_yet e h r a =
    let m' = forwarded from id msg x rs m in
    let sends : m'.sent ≡ forwards p ps id "msg" msg from =
      forwarded-sent id from p ps msg x rs m none_yet h in
    record {
      room = insert-IsRoom id p ps m' nodes (forwarded-IsNode id from p ps msg x rs m h) r;
      under_way = append-AllUnderWay id ps fs (from_node p m'.sent) a (
          subst (λ ss. AllUnderWay id ps (from_node p ss)) (sym sends)
            (forwards-AllUnderWay p id from ps ps msg x e (Among-self ps)));
      busy = append_busy fs (from_node p m'.sent) (
          let (t, inside, other, another_one) = another ps p from three in
          subst (λ ss. is_nothing (from_node p ss) ≡ false) (sym sends)
            (forwards_third p id from t ps msg inside other another_one));
    }
