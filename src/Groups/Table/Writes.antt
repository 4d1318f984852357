-- ===== src/Groups/Table/Writes.antt =====
-- internal/group: what each operation on a hosted group writes in its row is what it changes of it.
use goop.Base.{
  ℕ, ◌+◌, ◌-◌, ◌^◌, ◌<◌, arith, Bool, true, false, ◌&&◌, ◌||◌, not, String, List, [], ◌∷◌,
  if◌then◌else◌, ◌==◌, ok, err, ◌≡◌, refl, Bool-cases, Option-cases, inl, inr, ap, sym, ◌∙◌,
}
use goop.Base.Int.{ℤ, pos, negsuc, incr, incr-pos, ltb_ℤ}
use goop.Base.Map.{lookup, insert, size}
use goop.Base.Json.{Value}
use goop.Groups.{
  HostedGroup, MemberInfo, Effect, GroupError, Op, emit, send_each, broadcast_to_group,
  broadcast_members, save_members, call_handler, is_volatile, member_list, is_full, admitted,
  handle_join, handle_leave, handle_relay, kick_member, remove_member_and_broadcast, broadcast_meta,
  set_max_members, update_group_meta, set_default_role, set_group_roles, set_member_role,
  may_host_join, must_grow, raised, host_enters, announce_raise, join_own_group, host_exits,
  leave_own_group, or_same, step,
}
use goop.Groups.Table.{StoredGroup, Change, change, stored, write, writes}

-- The row `base` with the writes so far is the row of the group as it is.
pub record IsSaved (base : StoredGroup) (g : HostedGroup) : Type 0 where
  pub saved : writes g.effects base ≡ stored g

module _ (base : StoredGroup) where
  -- An effect that writes nothing in the row.
  unfoldable pub IsQuiet : Effect → Type 0
  IsQuiet e = (s : StoredGroup) → write e s ≡ s

  emit-IsSaved :
      (e : Effect) (g : HostedGroup) → IsQuiet e → IsSaved base g → IsSaved base (emit e g)
  unfolding emit writes stored IsQuiet
  emit-IsSaved e g quiet h = record { saved = quiet (writes g.effects base) ∙ h.saved }

  -- Only the fields of the row and the effects matter.
  same-IsSaved :
      (g k : HostedGroup)
      → g.effects ≡ k.effects
      → stored g ≡ stored k
      → IsSaved base g
      → IsSaved base k
  same-IsSaved g k es row h = record { saved = ap (λ x. writes x base) (sym es) ∙ h.saved ∙ row }

  writes-send_each :
      (self excluded : String) (message : String → Effect) (ms : List MemberInfo) (es : List Effect)
      → ((p : String) → IsQuiet (message p))
      → writes (send_each self excluded message ms es) base ≡ writes es base
  unfolding send_each writes IsQuiet
  writes-send_each self excluded message [] es quiet = refl
  writes-send_each self excluded message (m ∷ ms) es quiet =
      elim (Bool-cases (m.peer_id == self || m.peer_id == excluded)) [
        | inl skipped ↦ rw skipped (writes-send_each self excluded message ms es quiet)
        | inr sent ↦ rw sent (
            writes-send_each self excluded message ms (message m.peer_id ∷ es) quiet
            ∙ quiet m.peer_id (writes es base))
      ]

  broadcast-IsSaved :
      (message : String → Effect) (excluded : String) (g : HostedGroup)
      → ((p : String) → IsQuiet (message p))
      → IsSaved base g
      → IsSaved base (broadcast_to_group message excluded g)
  unfolding broadcast_to_group stored
  broadcast-IsSaved message excluded g quiet h = record {
    saved = writes-send_each g.self_id excluded message (member_list g) g.effects quiet ∙ h.saved;
  }

  members-IsSaved :
      (excluded : String) (g : HostedGroup)
      → IsSaved base g
      → IsSaved base (broadcast_members excluded g)
  unfolding broadcast_members IsQuiet write
  members-IsSaved excluded g h = broadcast-IsSaved _ excluded g (λ p s. refl) h

  save-IsSaved : (g : HostedGroup) → IsSaved base g → IsSaved base (save_members g)
  unfolding save_members IsQuiet write
  save-IsSaved g h = elim (Bool-cases (is_volatile g.handler)) [
    | inl unsaved ↦ rw unsaved h
    | inr kept ↦ rw kept (emit-IsSaved _ g (λ s. refl) h)
  ]

  handler-IsSaved :
      (e : Effect) (g : HostedGroup) → IsQuiet e → IsSaved base g → IsSaved base (call_handler e g)
  unfolding call_handler
  handler-IsSaved e g quiet h = elim (Option-cases g.handler) [
    | inl n ↦ rw (n, call_handler) h
    | inr (_, n) ↦ rw (n, call_handler) (emit-IsSaved e g quiet h)
  ]

  event-IsSaved :
      (kind from : String) (g : HostedGroup)
      → IsSaved base g
      → IsSaved base (emit (Effect.event kind from) g)
  unfolding IsQuiet write
  event-IsSaved kind from g h = emit-IsSaved _ g (λ s. refl) h

  meta-IsSaved : (g : HostedGroup) → IsSaved base g → IsSaved base (broadcast_meta g)
  unfolding broadcast_meta IsQuiet write
  meta-IsSaved g h = event-IsSaved "meta" "" _ (broadcast-IsSaved _ "" g (λ p s. refl) h)

  handle_join-IsSaved :
      (g : HostedGroup) (from : String) (now : ℕ)
      → IsSaved base g
      → IsSaved base (handle_join g from now)
  unfolding handle_join IsQuiet write admitted stored
  handle_join-IsSaved g from now h = elim (Bool-cases (is_full g)) [
    | inl full ↦ rw full (emit-IsSaved _ g (λ s. refl) h)
    | inr free ↦ rw free (
        handler-IsSaved _ _ (λ s. refl)
          (event-IsSaved "join" from _ (
            save-IsSaved _ (
              event-IsSaved "members" "" _ (
                members-IsSaved from _ (
                  emit-IsSaved _ (admitted g from now) (λ s. refl)
                    (same-IsSaved g (admitted g from now) refl refl h)))))))
  ]

  handle_leave-IsSaved :
      (g : HostedGroup) (from : String) → IsSaved base g → IsSaved base (handle_leave g from)
  unfolding handle_leave IsQuiet write stored
  handle_leave-IsSaved g from h =
      handler-IsSaved _ _ (λ s. refl)
        (event-IsSaved "leave" from _ (
          save-IsSaved _
            (event-IsSaved "members" from _ (members-IsSaved "" _ (same-IsSaved g _ refl refl h)))))

  handle_relay-IsSaved :
      (g : HostedGroup) (from msg_type : String) (payload : Value)
      → IsSaved base g
      → IsSaved base (handle_relay g from msg_type payload)
  unfolding handle_relay IsQuiet write
  handle_relay-IsSaved g from msg_type payload h =
      event-IsSaved msg_type from _ (broadcast-IsSaved _ from g (λ p s. refl) h)

  kick_member-IsSaved :
      (g : HostedGroup) (peer_id : String)
      → IsSaved base g
      → IsSaved base (or_same g (kick_member g peer_id))
  unfolding kick_member IsQuiet write stored or_same
  kick_member-IsSaved g peer_id h = elim (Option-cases (lookup peer_id g.members)) [
    | inl absent ↦ rw (absent, kick_member) h
    | inr (_, present) ↦
        rw (present, kick_member)
          (save-IsSaved _ (
            event-IsSaved "leave" peer_id _
              (members-IsSaved "" _ (emit-IsSaved _ _ (λ s. refl) (same-IsSaved g _ refl refl h)))))
  ]

  remove_member-IsSaved :
      (g : HostedGroup) (peer_id : String)
      → IsSaved base g
      → IsSaved base (remove_member_and_broadcast g peer_id)
  unfolding remove_member_and_broadcast stored
  remove_member-IsSaved g peer_id h = elim (Option-cases (lookup peer_id g.members)) [
    | inl absent ↦ rw (absent, remove_member_and_broadcast) h
    | inr (_, present) ↦
        rw (present, remove_member_and_broadcast)
          (save-IsSaved _ (
            event-IsSaved "members" peer_id _
              (members-IsSaved "" _ (same-IsSaved g _ refl refl h))))
  ]

  set_member_role-IsSaved :
      (g : HostedGroup) (peer_id role : String)
      → IsSaved base g
      → IsSaved base (or_same g (set_member_role g peer_id role))
  unfolding set_member_role IsQuiet write stored or_same
  set_member_role-IsSaved g peer_id role h = elim (Option-cases (lookup peer_id g.members)) [
    | inl absent ↦ rw (absent, set_member_role) h
    | inr (mm, present) ↦
        let changed = record g { members = insert peer_id (record mm { role = role }) g.members } in
        let kept : IsSaved base changed = same-IsSaved g changed refl refl h in
        elim (Bool-cases (is_volatile g.handler)) [
          | inl volatile ↦
              rw (present, set_member_role, volatile)
                (event-IsSaved "members" "" _ (members-IsSaved "" changed kept))
          | inr stable ↦
              rw (present, set_member_role, stable)
                (event-IsSaved "members" "" _
                  (members-IsSaved "" _ (save-IsSaved _ (emit-IsSaved _ changed (λ s. refl) kept))))
        ]
  ]

  -- A write, and the same change of the group.
  written-IsSaved :
      (e : Effect) (g k : HostedGroup)
      → k.effects ≡ e ∷ g.effects
      → write e (stored g) ≡ stored k
      → IsSaved base g
      → IsSaved base k
  unfolding writes
  written-IsSaved e g k es row h = record {
    saved = ap (λ x. writes x base) es ∙ ap (write e) h.saved ∙ row;
  }

  set_max_members-IsSaved :
      (g : HostedGroup) (max : ℤ) → IsSaved base g → IsSaved base (set_max_members g max)
  unfolding set_max_members emit write stored
  set_max_members-IsSaved g max h =
      meta-IsSaved _ (written-IsSaved (Effect.max_saved max) g _ refl refl h)

  update_group_meta-IsSaved :
      (g : HostedGroup) (name : String) (max : ℤ)
      → IsSaved base g
      → IsSaved base (or_same g (update_group_meta g name max))
  unfolding update_group_meta emit write stored or_same
  update_group_meta-IsSaved g name max h = elim (Bool-cases (name == "")) [
    | inl empty ↦ rw empty h
    | inr named ↦
        rw named (meta-IsSaved _ (written-IsSaved (Effect.meta_saved name max) g _ refl refl h))
  ]

  set_default_role-IsSaved :
      (g : HostedGroup) (role : String) → IsSaved base g → IsSaved base (set_default_role g role)
  unfolding set_default_role emit write stored
  set_default_role-IsSaved g role h =
      written-IsSaved (Effect.default_role_saved role) g _ refl refl h

  set_group_roles-IsSaved :
      (g : HostedGroup) (roles : List String)
      → IsSaved base g
      → IsSaved base (set_group_roles g roles)
  unfolding set_group_roles emit write stored
  set_group_roles-IsSaved g roles h = written-IsSaved (Effect.roles_saved roles) g _ refl refl h

  -- An operation behind two tests.
  guarded-IsSaved :
      (b c : Bool) (e f : GroupError) (g k : HostedGroup)
      → IsSaved base g
      → IsSaved base k
      → IsSaved base (or_same g (if b then err e else if c then err f else ok k))
  unfolding or_same
  guarded-IsSaved true c e f g k h h' = h
  guarded-IsSaved false true e f g k h h' = h
  guarded-IsSaved false false e f g k h h' = h'

  leave_own_group-IsSaved :
      (g : HostedGroup) → IsSaved base g → IsSaved base (or_same g (leave_own_group g))
  unfolding leave_own_group emit write stored or_same host_exits IsQuiet
  leave_own_group-IsSaved g h =
      guarded-IsSaved (not g.host_joined) (ltb_ℤ (pos 0) (pos (size g.members))) _ _ g _ h (
        handler-IsSaved _ _ (λ s. refl)
          (event-IsSaved "members" "" _
            (members-IsSaved "" _ (written-IsSaved (Effect.host_saved false) g _ refl refl h))))

  -- A limit that is below a number of members is far from the largest `int`, so that the raised one
  -- is positive.
  positive_raise :
      (max : ℤ) (n : ℕ)
      → n < 2 ^ 63 - 1
      → (ltb_ℤ (pos 0) max && ltb_ℤ max (pos (n + 1))) ≡ true
      → ltb_ℤ (pos 0) (incr max) ≡ true
  positive_raise (pos k) n small h =
      let low : k < 2 ^ 63 - 1 = ground arith in rw (incr-pos k low) (ground arith)
  positive_raise (negsuc k) n small h = ground arith

  announced-IsSaved :
      (g : HostedGroup) (now : ℕ)
      → size g.members < 2 ^ 63 - 1
      → IsSaved base g
      → IsSaved base
          (announce_raise (must_grow g) (emit (Effect.host_saved true) (host_enters g now)))
  unfolding announce_raise must_grow host_enters raised emit write stored
  announced-IsSaved g now small h = elim (Bool-cases (must_grow g)) [
    | inr keeps ↦ rw keeps (written-IsSaved (Effect.host_saved true) g _ refl refl h)
    | inl grows ↦
        let more = positive_raise g.info.max_members (size g.members) small grows in
        let inside = record g {
          host_joined = true;
          effects = Effect.host_saved true ∷ g.effects;
        } in
        let max = incr g.info.max_members in
        rw (grows, more)
          (meta-IsSaved _ (
            written-IsSaved (Effect.max_saved max) inside _ refl refl
              (written-IsSaved (Effect.host_saved true) g inside refl refl h)))
  ]

  join_own_group-IsSaved :
      (g : HostedGroup) (now : ℕ)
      → size g.members < 2 ^ 63 - 1
      → IsSaved base g
      → IsSaved base (or_same g (join_own_group g now))
  unfolding join_own_group IsQuiet write
  join_own_group-IsSaved g now small h =
      guarded-IsSaved (not (may_host_join g.handler)) g.host_joined _ _ g _ h (
        handler-IsSaved _ _ (λ s. refl)
          (event-IsSaved "members" "" _ (members-IsSaved "" _ (announced-IsSaved g now small h))))

  step-IsSaved :
      (g : HostedGroup) (op : Op)
      → size g.members < 2 ^ 63 - 1
      → IsSaved base g
      → IsSaved base (step g op)
  unfolding step
  step-IsSaved g (Op.joins from now) small h = handle_join-IsSaved g from now h
  step-IsSaved g (Op.leaves from) small h = handle_leave-IsSaved g from h
  step-IsSaved g (Op.relays from msg_type payload) small h =
      handle_relay-IsSaved g from msg_type payload h
  step-IsSaved g (Op.kicks peer_id) small h = kick_member-IsSaved g peer_id h
  step-IsSaved g (Op.removes peer_id) small h = remove_member-IsSaved g peer_id h
  step-IsSaved g (Op.sets_role peer_id role) small h = set_member_role-IsSaved g peer_id role h
  step-IsSaved g (Op.host_joins now) small h = join_own_group-IsSaved g now small h
  step-IsSaved g Op.host_leaves small h = leave_own_group-IsSaved g h

  -- What an operation writes in the row of a group is what it changes of it.
  pub change-IsSaved :
      (c : Change) (g : HostedGroup)
      → size g.members < 2 ^ 63 - 1
      → IsSaved base g
      → IsSaved base (change c g)
  unfolding change
  change-IsSaved (Change.steps op) g small h = step-IsSaved g op small h
  change-IsSaved (Change.sets_max max) g small h = set_max_members-IsSaved g max h
  change-IsSaved (Change.sets_meta name max) g small h = update_group_meta-IsSaved g name max h
  change-IsSaved (Change.sets_default_role role) g small h = set_default_role-IsSaved g role h
  change-IsSaved (Change.sets_roles roles) g small h = set_group_roles-IsSaved g roles h
