-- ===== src/Chat/Storm/Sends.antt =====
-- internal/group_types/chat: what a node sends on, and that a third member is among the receivers.
use goop.Base.{
  Bool, true, false, ◌||◌, String, List, [], ◌∷◌, ◌++◌, some, ◌==◌, ◌≡◌, ◌≢◌, refl, arith, eq_iff,
  inl, inr, Bool-cases,
}
use goop.Chat.Rooms.{Member, Message, ChatMsg}
use goop.Chat.Forwarding.{forwards}
use goop.Chat.Storm.{AllUnderWay, Flight, from_node, is_member}

pub append-AllUnderWay :
    (id : String) (ps : List Member) (fs gs : List Flight)
    → AllUnderWay id ps fs
    → AllUnderWay id ps gs
    → AllUnderWay id ps (fs ++ gs)
append-AllUnderWay id ps [] gs a b = b
append-AllUnderWay id ps (f ∷ fs) gs a b = (a.0, append-AllUnderWay id ps fs gs a.1 b)

-- All members of `qs` are of `ps`.
abbrev Among : List Member → List Member → Type 0
Among [] ps = Unit
Among (q ∷ qs) ps = (is_member q.peer_id ps ≡ true) × Among qs ps

pub forwards-AllUnderWay :
    (self id from : String) (qs ps : List Member) (msg : ChatMsg) (x : Message)
    → msg.message ≡ some x
    → Among qs ps
    → AllUnderWay id ps (from_node self (forwards self qs id "msg" msg from))
unfolding forwards from_node
forwards-AllUnderWay self id from [] ps msg x e a = tt
forwards-AllUnderWay self id from (q ∷ qs) ps msg x e a =
    elim (Bool-cases (q.peer_id == self || q.peer_id == from)) [
      | inl h ↦ rw h (forwards-AllUnderWay self id from qs ps msg x e a.1)
      | inr h ↦ rw h (
        record {
          of_room = refl;
          is_msg = refl;
          has_message = (x, e);
          to_member = a.0;
          differs = λ same. ground (arith, eq_iff q.peer_id self, same);
        },
        forwards-AllUnderWay self id from qs ps msg x e a.1,
      )
    ]

abbrev pub is_nothing : List Flight → Bool
is_nothing [] = true
is_nothing (_ ∷ _) = false

-- A third member is sent something.
pub forwards_third :
    (self id from third : String) (qs : List Member) (msg : ChatMsg)
    → is_member third qs ≡ true
    → third ≢ self
    → third ≢ from
    → is_nothing (from_node self (forwards self qs id "msg" msg from)) ≡ false
unfolding forwards from_node is_member
forwards_third self id from third [] msg h n k = cc h
forwards_third self id from third (q ∷ qs) msg h n k =
    let rest = forwards_third self id from third qs msg in
    ground (arith, rest, eq_iff q.peer_id third, eq_iff q.peer_id self, eq_iff q.peer_id from)

Among-more : (r : Member) (qs ps : List Member) → Among qs ps → Among qs (r ∷ ps)
unfolding is_member
Among-more r [] ps a = tt
Among-more r (q ∷ qs) ps a = (ground (arith, a.0), Among-more r qs ps a.1)

pub Among-self : (ps : List Member) → Among ps ps
unfolding is_member
Among-self [] = tt
Among-self (q ∷ qs) =
    (ground (arith, eq_iff q.peer_id q.peer_id), Among-more q qs qs (Among-self qs))

-- Three members that differ.
pub record HasThree (ps : List Member) : Type 0 where
  pub first : String
  pub second : String
  pub third : String
  pub first_in : is_member first ps ≡ true
  pub second_in : is_member second ps ≡ true
  pub third_in : is_member third ps ≡ true
  pub first_second : first ≢ second
  pub first_third : first ≢ third
  pub second_third : second ≢ third

pub another :
    (ps : List Member) (x y : String)
    → HasThree ps
    → (t : String) × (is_member t ps ≡ true) × (t ≢ x) × (t ≢ y)
another ps x y h = elim (Bool-cases (h.first == x || h.first == y)) [
  | inr e ↦
      (h.first, h.first_in, ground (arith, eq_iff h.first x), ground (arith, eq_iff h.first y))
  | inl e ↦ elim (Bool-cases (h.second == x || h.second == y)) [
    | inr e' ↦ (
      h.second,
      h.second_in,
      ground (arith, eq_iff h.second x),
      ground (arith, eq_iff h.second y),
    )
    | inl e' ↦
        let d = h.first_second in
        let d' = h.first_third in
        let d'' = h.second_third in
        (
          h.third,
          h.third_in,
          ground (
            arith,
            eq_iff h.first x,
            eq_iff h.first y,
            eq_iff h.second x,
            eq_iff h.second y,
            d,
            d',
            d'',
          ),
          ground (
            arith,
            eq_iff h.first x,
            eq_iff h.first y,
            eq_iff h.second x,
            eq_iff h.second y,
            d,
            d',
            d'',
          ),
        )
  ]
]
