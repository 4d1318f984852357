-- ===== src/Groups/Client/Handshake/Answers.antt =====
-- internal/group: what the host sends to a peer that asks to join.
use goop.Base.{
  ℕ, true, false, ◌||◌, String, List, [], ◌∷◌, some, ◌==◌, eq_iff, ◌≡◌, refl, Bool-cases,
  Option-cases, inl, inr, ◌∙◌,
}
use goop.Groups.{
  HostedGroup, MemberInfo, Effect, emit, send_each, broadcast_to_group, broadcast_members,
  save_members, call_handler, is_volatile, member_list, is_full, admitted, handle_join,
}
use goop.Groups.Client.{Incoming}
use goop.Groups.Client.Handshake.{answer_to, refusal, welcome_of}

module _ (group_id p : String) where
  answer_to-send_each :
      (self excluded : String) (ms all : List MemberInfo) (es : List Effect)
      → answer_to group_id p (send_each self excluded (λ q. Effect.members_sent q all) ms es)
        ≡ answer_to group_id p es
  unfolding answer_to send_each
  answer_to-send_each self excluded [] all es = refl
  answer_to-send_each self excluded (m ∷ ms) all es =
      elim (Bool-cases (m.peer_id == self || m.peer_id == excluded)) [
        | inl skipped ↦ rw skipped (answer_to-send_each self excluded ms all es)
        | inr sent ↦
            rw sent
              (answer_to-send_each self excluded ms all (Effect.members_sent m.peer_id all ∷ es))
      ]

  answer_to-save_members :
      (g : HostedGroup)
      → answer_to group_id p (save_members g).effects ≡ answer_to group_id p g.effects
  unfolding answer_to save_members emit
  answer_to-save_members g = elim (Bool-cases (is_volatile g.handler)) [
    | inl unsaved ↦ rw unsaved refl
    | inr kept ↦ rw kept refl
  ]

  answer_to-on_join :
      (q : String) (g : HostedGroup)
      → answer_to group_id p (call_handler (Effect.on_join q false) g).effects
        ≡ answer_to group_id p g.effects
  unfolding answer_to call_handler emit
  answer_to-on_join q g = elim (Option-cases g.handler) [
    | inl n ↦ rw (n, call_handler) refl
    | inr (_, n) ↦ rw (n, call_handler) refl
  ]

  answer_to-event :
      (kind from : String) (g : HostedGroup)
      → answer_to group_id p (emit (Effect.event kind from) g).effects
        ≡ answer_to group_id p g.effects
  unfolding answer_to emit
  answer_to-event kind from g = refl

  answer_to-broadcast_members :
      (excluded : String) (g : HostedGroup)
      → answer_to group_id p (broadcast_members excluded g).effects ≡ answer_to group_id p g.effects
  unfolding broadcast_members broadcast_to_group
  answer_to-broadcast_members excluded g =
      answer_to-send_each g.self_id excluded (member_list g) (member_list g) g.effects

  answer_to-welcome :
      (g : HostedGroup)
      → answer_to group_id p
          (emit (Effect.welcome p g.info (is_volatile g.handler) (member_list g)) g).effects
        ≡ some (Incoming.welcome (some (welcome_of g.info (member_list g))))
  unfolding answer_to emit
  answer_to-welcome g = let same : (p == p) ≡ true = (eq_iff p p).1 refl in rw same refl

  -- A group with a place answers with its data and its new list of members.
  pub answer_to-handle_join :
      (g : HostedGroup) (now : ℕ)
      → is_full g ≡ false
      → answer_to group_id p (handle_join g p now).effects
        ≡ some (Incoming.welcome (some (welcome_of g.info (member_list (admitted g p now)))))
  unfolding handle_join admitted
  answer_to-handle_join g now room =
      let a = admitted g p now in
      let w = emit (Effect.welcome p a.info (is_volatile a.handler) (member_list a)) a in
      let told = emit (Effect.event "members" "") (broadcast_members p w) in
      let done = emit (Effect.event "join" p) (save_members told) in
      rw room (
        answer_to-on_join p done
        ∙ answer_to-event "join" p (save_members told)
        ∙ answer_to-save_members told
        ∙ answer_to-event "members" "" (broadcast_members p w)
        ∙ answer_to-broadcast_members p w
        ∙ answer_to-welcome a)

  -- A full one answers with a refusal.
  pub answer_to-handle_join_full :
      (g : HostedGroup) (now : ℕ)
      → is_full g ≡ true
      → answer_to group_id p (handle_join g p now).effects
        ≡ some (Incoming.error (refusal group_id))
  unfolding handle_join emit answer_to
  answer_to-handle_join_full g now full =
      let same : (p == p) ≡ true = (eq_iff p p).1 refl in rw (full, same) refl
