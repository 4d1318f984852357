-- ===== src/Groups/Broadcast.antt =====
-- internal/group/host.go, broadcastToGroup: whom a broadcast reaches.
use goop.Base.{
  Bool, true, false, ◌||◌, String, List, [], ◌∷◌, Option, none, some, if◌then◌else◌, ◌==◌, ◌≡◌,
  refl, arith, Bool-cases, inl, inr, sym, ◌∙◌, eq_iff,
}
use goop.Base.Map.{Map, lookup}
use goop.Base.Json.{Value}
use goop.Groups.{
  HostedGroup, MemberInfo, MemberMeta, Effect, member_list, infos, emit, send_each,
  broadcast_to_group, handle_relay,
}

unfoldable pub has : String → Map MemberMeta → Bool
has p m = elim (lookup p m) [ none ↦ false | some _ ↦ true ]

unfoldable pub listed : String → List MemberInfo → Bool
listed p [] = false
listed p (mi ∷ mis) = mi.peer_id == p || listed p mis

has-tail :
    (p id : String) (mm : MemberMeta) (m : Map MemberMeta)
    → (id == p) ≡ false
    → has p ((id, mm) ∷ m) ≡ true
    → has p m ≡ true
unfolding has lookup
has-tail p id mm m e h = sym (rw (e, has) refl) ∙ h

pub listed-infos : (p : String) (m : Map MemberMeta) → has p m ≡ true → listed p (infos m) ≡ true
unfolding listed infos has lookup
listed-infos p [] h = h
listed-infos p ((id, mm) ∷ m) h = elim (Bool-cases (id == p)) [
  | inl e ↦ rw e refl
  | inr e ↦
      let later : listed p (infos m) ≡ true = listed-infos p m (has-tail p id mm m e h) in
      rw (e, later) refl
]

or_true : (b : Bool) → (b || true) ≡ true
or_true true = refl
or_true false = refl

pub listed-member_list :
    (p : String) (g : HostedGroup) → has p g.members ≡ true → listed p (member_list g) ≡ true
unfolding member_list listed
listed-member_list p g h = elim (Bool-cases g.host_joined) [
  | inl e ↦ rw (e, listed-infos p g.members h) (or_true (g.self_id == p))
  | inr e ↦ rw e (listed-infos p g.members h)
]

not_skipped :
    (q p self excluded : String)
    → (q == p) ≡ true
    → (p == self) ≡ false
    → (p == excluded) ≡ false
    → (q == self || q == excluded) ≡ false
not_skipped q p self excluded e a b =
    ground (arith, eq_iff q p, eq_iff q self, eq_iff p self, eq_iff q excluded, eq_iff p excluded)

listed-tail :
    (p : String) (mi : MemberInfo) (mis : List MemberInfo)
    → (mi.peer_id == p) ≡ false
    → listed p (mi ∷ mis) ≡ true
    → listed p mis ≡ true
unfolding listed
listed-tail p mi mis e h = sym (rw e refl) ∙ h

-- `view` is what an effect shows to a peer.
module _ {X : Type 0} (view : String → Effect → Option X) where
  -- What a peer was shown last.
  unfoldable pub last_seen : String → List Effect → Option X
  last_seen p [] = none
  last_seen p (e ∷ es) = elim (view p e) [ none ↦ last_seen p es | some l ↦ some l ]

  pub silent_first :
      (p : String) (e : Effect) (sent : List Effect)
      → view p e ≡ none
      → last_seen p (e ∷ sent) ≡ last_seen p sent
  unfolding last_seen
  silent_first p e sent h = rw (h, last_seen) refl

  -- A broadcast that shows nothing of the kind.
  pub send_each-silent :
      (p self excluded : String) (message : String → Effect) (mis : List MemberInfo)
      (sent : List Effect)
      → ((q : String) → view p (message q) ≡ none)
      → last_seen p (send_each self excluded message mis sent) ≡ last_seen p sent
  unfolding send_each
  send_each-silent p self excluded message [] sent h = refl
  send_each-silent p self excluded message (mi ∷ mis) sent h =
      elim (Bool-cases (mi.peer_id == self || mi.peer_id == excluded)) [
        | inl e ↦ rw e (send_each-silent p self excluded message mis sent h)
        | inr e ↦ rw e (
            send_each-silent p self excluded message mis (message mi.peer_id ∷ sent) h
            ∙ silent_first p (message mi.peer_id) sent (h mi.peer_id))
      ]

-- A broadcast that shows `l` to each that it reaches.
module _ {X : Type 0} (view : String → Effect → Option X) (message : String → Effect) (l : X)
    (sees : (p q : String) → view p (message q) ≡ (if q == p then some l else none)) where
  seen_again :
      (p q : String) (sent : List Effect)
      → last_seen view p sent ≡ some l
      → last_seen view p (message q ∷ sent) ≡ some l
  unfolding last_seen
  seen_again p q sent h = elim (Bool-cases (q == p)) [
    | inl e ↦ rw (sees p q, e, last_seen) refl
    | inr e ↦ rw (sees p q, e, last_seen) h
  ]

  seen_now :
      (p q : String) (sent : List Effect)
      → (q == p) ≡ true
      → last_seen view p (message q ∷ sent) ≡ some l
  unfolding last_seen
  seen_now p q sent e = rw (sees p q, e, last_seen) refl

  pub send_each-keeps :
      (p self excluded : String) (mis : List MemberInfo) (sent : List Effect)
      → last_seen view p sent ≡ some l
      → last_seen view p (send_each self excluded message mis sent) ≡ some l
  unfolding send_each
  send_each-keeps p self excluded [] sent h = h
  send_each-keeps p self excluded (mi ∷ mis) sent h =
      elim (Bool-cases (mi.peer_id == self || mi.peer_id == excluded)) [
        | inl e ↦ rw e (send_each-keeps p self excluded mis sent h)
        | inr e ↦ rw e (
            send_each-keeps p self excluded mis (message mi.peer_id ∷ sent)
              (seen_again p mi.peer_id sent h))
      ]

  -- The loop of broadcastToGroup sends to every member on the list but the host and the excluded one.
  pub send_each-told :
      (p self excluded : String) (mis : List MemberInfo) (sent : List Effect)
      → (p == self) ≡ false
      → (p == excluded) ≡ false
      → listed p mis ≡ true
      → last_seen view p (send_each self excluded message mis sent) ≡ some l
  unfolding send_each listed
  send_each-told p self excluded [] sent a b h = cc
  send_each-told p self excluded (mi ∷ mis) sent a b h = elim (Bool-cases (mi.peer_id == p)) [
    | inl e ↦ rw (not_skipped mi.peer_id p self excluded e a b) (
        send_each-keeps p self excluded mis (message mi.peer_id ∷ sent)
          (seen_now p mi.peer_id sent e))
    | inr e ↦
        let later = listed-tail p mi mis e h in
        elim (Bool-cases (mi.peer_id == self || mi.peer_id == excluded)) [
          | inl f ↦ rw f (send_each-told p self excluded mis sent a b later)
          | inr f ↦ rw f (send_each-told p self excluded mis (message mi.peer_id ∷ sent) a b later)
        ]
  ]

-- The message that an effect relays to a peer.
unfoldable pub relay : String → Effect → Option (String × Value)
relay p (Effect.relayed q type payload) = if q == p then some (type, payload) else none
relay p _ = none

-- A message of a member, or of any other peer, is relayed to every member but the host and the sender.
-- (No peer has the empty id.)
pub handle_relay-reaches :
    (g : HostedGroup) (from type p : String) (payload : Value)
    → (p == g.self_id) ≡ false
    → (p == from) ≡ false
    → has p g.members ≡ true
    → last_seen relay p (handle_relay g from type payload).effects ≡ some (type, payload)
unfolding handle_relay emit broadcast_to_group relay
handle_relay-reaches g from type p payload a b h =
    silent_first relay p (Effect.event type from) _ refl
    ∙ send_each-told relay (λ q. Effect.relayed q type payload) (type, payload) (λ p q. refl) p
        g.self_id from (member_list g) g.effects a b (listed-member_list p g h)
