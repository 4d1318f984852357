-- ===== src/Groups/Views.antt =====
-- internal/group: what the members of a hosted group have been told.
use goop.Base.{
  ℕ, Bool, true, false, not, String, List, [], ◌∷◌, Option, none, some, if◌then◌else◌, ◌==◌, Result,
  err, ◌≡◌, refl, arith, Bool-cases, Option-cases, inl, inr, sym, ◌∙◌, eq_iff, subst,
}
use text.Mathlib.TextPositions.{eq_refl}
use goop.Base.Int.{pos, ltb_ℤ}
use goop.Base.Map.{lookup, size}
use goop.Groups.Broadcast.{
  has, last_seen, listed-member_list, silent_first, send_each-silent, send_each-keeps,
  send_each-told,
}
use goop.Groups.{
  HostedGroup, MemberInfo, Effect, GroupError, Op, member_list, emit, broadcast_to_group,
  broadcast_members, save_members, call_handler, is_full, admitted, handle_join, handle_leave,
  handle_relay, kick_member, remove_member_and_broadcast, set_member_role, join_own_group,
  leave_own_group, or_same, step, run, is_volatile, may_host_join,
}

-- The list of members that an effect shows to a peer.
unfoldable pub shown : String → Effect → Option (List MemberInfo)
shown p (Effect.welcome q _ _ l) = if q == p then some l else none
shown p (Effect.members_sent q l) = if q == p then some l else none
shown p _ = none

abbrev Told : String → HostedGroup → Type 0
Told p g = last_seen shown p g.effects ≡ some (member_list g)

-- Every member, but the host, was shown last the list of the members as they are now. (A peer's id is
-- never empty.)
pub record IsCurrent (g : HostedGroup) : Type 0 where
  pub current :
      (p : String)
      → (p == g.self_id) ≡ false
      → (p == "") ≡ false
      → has p g.members ≡ true
      → last_seen shown p g.effects ≡ some (member_list g)

broadcast-Told :
    (p excluded : String) (g : HostedGroup)
    → (p == g.self_id) ≡ false
    → (p == excluded) ≡ false
    → has p g.members ≡ true
    → Told p (broadcast_members excluded g)
unfolding broadcast_members broadcast_to_group member_list shown
broadcast-Told p excluded g a b h =
    send_each-told shown (λ q. Effect.members_sent q (member_list g)) (member_list g) (λ p q. refl)
      p g.self_id excluded (member_list g) g.effects a b (listed-member_list p g h)

broadcast-keeps :
    (p excluded : String) (g : HostedGroup) → Told p g → Told p (broadcast_members excluded g)
unfolding broadcast_members broadcast_to_group member_list shown
broadcast-keeps p excluded g h =
    send_each-keeps shown (λ q. Effect.members_sent q (member_list g)) (member_list g) (λ p q. refl)
      p g.self_id excluded (member_list g) g.effects h

-- A broadcast to all tells every member.
broadcast-IsCurrent : (g : HostedGroup) → IsCurrent (broadcast_members "" g)
unfolding broadcast_members broadcast_to_group
broadcast-IsCurrent g = record {
  current = λ p a b h. unfold broadcast_members broadcast_to_group in broadcast-Told p "" g a b h;
}

-- A broadcast to all but one, who was told before.
broadcast_but-IsCurrent :
    (g : HostedGroup) (from : String) → Told from g → IsCurrent (broadcast_members from g)
unfolding broadcast_members broadcast_to_group member_list
broadcast_but-IsCurrent g from t = record {
  current = λ p a b h. elim (Bool-cases (p == from)) [
    | inl e ↦
        let same : p ≡ from = ground (arith, eq_iff p from) in
        broadcast-keeps p from g (subst (λ q. Told q g) (sym same) t)
    | inr e ↦ broadcast-Told p from g a e h
  ];
}

emit-IsCurrent :
    (e : Effect) (g : HostedGroup)
    → ((p : String) → shown p e ≡ none)
    → IsCurrent g
    → IsCurrent (emit e g)
unfolding emit member_list
emit-IsCurrent e g s c = record {
  current = λ p a b h. silent_first shown p e g.effects (s p) ∙ c.current p a b h;
}

event-IsCurrent :
    (type from : String) (g : HostedGroup)
    → IsCurrent g
    → IsCurrent (emit (Effect.event type from) g)
unfolding shown
event-IsCurrent type from g c = emit-IsCurrent (Effect.event type from) g (λ p. refl) c

save-IsCurrent : (g : HostedGroup) → IsCurrent g → IsCurrent (save_members g)
unfolding save_members shown
save-IsCurrent g c = elim (Bool-cases (is_volatile g.handler)) [
  | inl e ↦ rw e c
  | inr e ↦ rw e (emit-IsCurrent (Effect.members_saved (member_list g)) g (λ p. refl) c)
]

handler-IsCurrent :
    (e : Effect) (g : HostedGroup)
    → ((p : String) → shown p e ≡ none)
    → IsCurrent g
    → IsCurrent (call_handler e g)
unfolding call_handler
handler-IsCurrent e g s c = elim (Option-cases g.handler) [
  | inl n ↦ rw (n, call_handler) c
  | inr (f, n) ↦ rw (n, call_handler) (emit-IsCurrent e g s c)
]

silent-IsCurrent :
    (message : String → Effect) (excluded : String) (g : HostedGroup)
    → ((p q : String) → shown p (message q) ≡ none)
    → IsCurrent g
    → IsCurrent (broadcast_to_group message excluded g)
unfolding broadcast_to_group member_list
silent-IsCurrent message excluded g s c = record {
  current = λ p a b h.
      send_each-silent shown p g.self_id excluded message (member_list g) g.effects (s p)
      ∙ c.current p a b h;
}

welcomed_lem :
    (g : HostedGroup) (from : String) (now : ℕ)
    → Told from (
        emit
          (Effect.welcome from g.info (is_volatile g.handler) (member_list (admitted g from now)))
          (admitted g from now))
unfolding emit last_seen shown member_list
welcomed_lem g from now = let same = eq_refl from in rw (same, last_seen) refl

join-IsCurrent :
    (g : HostedGroup) (from : String) (now : ℕ) → IsCurrent g → IsCurrent (handle_join g from now)
unfolding handle_join shown
join-IsCurrent g from now c = elim (Bool-cases (is_full g)) [
  | inl e ↦ rw e (emit-IsCurrent (Effect.full from) g (λ p. refl) c)
  | inr e ↦ rw e (
      handler-IsCurrent (Effect.on_join from false) _ (λ p. refl)
        (event-IsCurrent "join" from _ (
          save-IsCurrent _ (
            event-IsCurrent "members" "" _
              (broadcast_but-IsCurrent _ from (welcomed_lem g from now))))))
]

guarded-IsCurrent :
    (g : HostedGroup) (b : Bool) (e : GroupError) (r : Result GroupError HostedGroup)
    → IsCurrent g
    → IsCurrent (or_same g r)
    → IsCurrent (or_same g (if b then err e else r))
unfolding or_same
guarded-IsCurrent g true e r c k = c
guarded-IsCurrent g false e r c k = k

step-IsCurrent : (g : HostedGroup) (o : Op) → IsCurrent g → IsCurrent (step g o)
unfolding step shown kick_member remove_member_and_broadcast set_member_role or_same
step-IsCurrent g (Op.joins from now) c = join-IsCurrent g from now c
step-IsCurrent g (Op.leaves from) c =
    unfold handle_leave in
    handler-IsCurrent (Effect.on_leave from false) _ (λ p. refl)
      (event-IsCurrent "leave" from _
        (save-IsCurrent _ (event-IsCurrent "members" from _ (broadcast-IsCurrent _))))
step-IsCurrent g (Op.relays from type payload) c =
    unfold handle_relay in event-IsCurrent type from _ (silent-IsCurrent _ from g (λ p q. refl) c)
step-IsCurrent g (Op.kicks id) c = elim (Option-cases (lookup id g.members)) [
  | inl e ↦ rw (e, kick_member) c
  | inr (_, e) ↦
      rw (e, kick_member) (save-IsCurrent _ (event-IsCurrent "leave" id _ (broadcast-IsCurrent _)))
]
step-IsCurrent g (Op.removes id) c = elim (Option-cases (lookup id g.members)) [
  | inl e ↦ rw (e, remove_member_and_broadcast) c
  | inr (_, e) ↦
      rw (e, remove_member_and_broadcast)
        (save-IsCurrent _ (event-IsCurrent "members" id _ (broadcast-IsCurrent _)))
]
step-IsCurrent g (Op.sets_role id role) c = elim (Option-cases (lookup id g.members)) [
  | inl e ↦ rw (e, set_member_role) c
  | inr (_, e) ↦ rw (e, set_member_role) (event-IsCurrent "members" "" _ (broadcast-IsCurrent _))
]
step-IsCurrent g (Op.host_joins now) c =
    unfold join_own_group in
    guarded-IsCurrent g (not (may_host_join g.handler)) _ _ c (
      guarded-IsCurrent g g.host_joined _ _ c (
        handler-IsCurrent (Effect.on_join g.self_id true) _ (λ p. refl)
          (event-IsCurrent "members" "" _ (broadcast-IsCurrent _))))
step-IsCurrent g Op.host_leaves c =
    unfold leave_own_group in
    guarded-IsCurrent g (not g.host_joined) _ _ c (
      guarded-IsCurrent g (ltb_ℤ (pos 0) (pos (size g.members))) _ _ c (
        handler-IsCurrent (Effect.on_leave g.self_id true) _ (λ p. refl)
          (event-IsCurrent "members" "" _ (broadcast-IsCurrent _))))

-- If each member but the host was shown last the current list of members, this still holds after any
-- joins, refused ones too, departures, kicks, removals after a failed send, changes of a role, relayed
-- messages, and after the host itself enters or leaves. (No peer has the empty id, and messages reach
-- a member in the order in which they were sent.)
pub run-IsCurrent : (g : HostedGroup) (os : List Op) → IsCurrent g → IsCurrent (run g os)
unfolding run
run-IsCurrent g [] c = c
run-IsCurrent g (o ∷ os) c = run-IsCurrent (step g o) os (step-IsCurrent g o c)
