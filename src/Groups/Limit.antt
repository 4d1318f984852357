-- ===== src/Groups/Limit.antt =====
-- internal/group: the limit of members of a hosted group.
use goop.Base.{
  ℕ, suc, ◌+◌, ◌≤◌, Bool, true, false, ◌&&◌, not, String, List, [], ◌∷◌, some, if◌then◌else◌, ◌==◌,
  Result, err, ◌≡◌, refl, arith, Bool-cases, Option-cases, inl, inr, ap, sym, ◌∙◌, subst,
}
use goop.Base.Int.{ℤ, pos, negsuc, ltb_ℤ, leb_ℤ, ◌≤ℤ◌, ◌<ℤ◌, incr, suc_ℤ, int_max, int_min}
use goop.Base.Map.{Map, lookup, insert, erase, size}
use goop.Groups.{
  HostedGroup, MemberMeta, Effect, GroupError, Op, emit, broadcast_to_group, broadcast_members,
  save_members, call_handler, is_full, seats, admitted, handle_join, handle_leave, handle_relay,
  kick_member, remove_member_and_broadcast, broadcast_meta, set_member_role, host_enters, raised,
  must_grow, announce_raise, join_own_group, host_exits, leave_own_group, or_same, step, run,
  is_volatile, may_host_join,
}

-- A positive limit is not exceeded.
pub record IsWithin (g : HostedGroup) : Type 0 where
  pub within : pos 0 <ℤ g.info.max_members → pos (seats g) ≤ℤ g.info.max_members

size-insert : {V : Type 0} (k : String) (v : V) (m : Map V) → size (insert k v m) ≤ suc (size m)
unfolding insert
size-insert k v [] = omega arith
size-insert k v ((j, w) ∷ m) = elim (Bool-cases (j == k)) [
  | inl e ↦ rw e (omega arith)
  | inr e ↦ rw e (omega (arith, size-insert k v m))
]

size-erase : {V : Type 0} (k : String) (m : Map V) → size (erase k m) ≤ size m
unfolding erase
size-erase k [] = omega arith
size-erase k ((j, w) ∷ m) = elim (Bool-cases (j == k)) [
  | inl e ↦ rw e (omega (arith, size-erase k m))
  | inr e ↦ rw e (omega (arith, size-erase k m))
]

size-insert_old :
    {V : Type 0} (k : String) (v w : V) (m : Map V)
    → lookup k m ≡ some w
    → size (insert k v m) ≡ size m
unfolding insert lookup
size-insert_old k v w [] e = cc
size-insert_old k v w ((j, u) ∷ m) e = elim (Bool-cases (j == k)) [
  | inl f ↦ rw f refl
  | inr f ↦
      let rest : lookup k m ≡ some w = sym (rw (f, lookup) refl) ∙ e in
      rw f (ap suc (size-insert_old k v w m rest))
]

emit-IsWithin : (e : Effect) (g : HostedGroup) → IsWithin g → IsWithin (emit e g)
unfolding emit seats
emit-IsWithin e g w = record { within = w.within }

broadcast-IsWithin :
    (message : String → Effect) (excluded : String) (g : HostedGroup)
    → IsWithin g
    → IsWithin (broadcast_to_group message excluded g)
unfolding broadcast_to_group seats
broadcast-IsWithin message excluded g w = record { within = w.within }

members-IsWithin :
    (excluded : String) (g : HostedGroup) → IsWithin g → IsWithin (broadcast_members excluded g)
unfolding broadcast_members
members-IsWithin excluded g w = broadcast-IsWithin _ excluded g w

save-IsWithin : (g : HostedGroup) → IsWithin g → IsWithin (save_members g)
unfolding save_members
save-IsWithin g w = elim (Bool-cases (is_volatile g.handler)) [
  | inl e ↦ rw e w
  | inr e ↦ rw e (emit-IsWithin _ g w)
]

handler-IsWithin : (e : Effect) (g : HostedGroup) → IsWithin g → IsWithin (call_handler e g)
unfolding call_handler
handler-IsWithin e g w = elim (Option-cases g.handler) [
  | inl n ↦ rw (n, call_handler) w
  | inr (_, n) ↦ rw (n, call_handler) (emit-IsWithin e g w)
]

-- A test of a full group, and the raise of its limit, on numbers.
room_for_one :
    (max : ℤ) (n : ℕ)
    → (ltb_ℤ (pos 0) max && leb_ℤ max (pos n)) ≡ false
    → pos 0 <ℤ max
    → pos (suc n) ≤ℤ max
room_for_one max n h p = ground arith

raise_for_one :
    (max : ℤ) (n : ℕ)
    → (ltb_ℤ (pos 0) max && ltb_ℤ max (pos (n + 1))) ≡ true
    → (pos 0 <ℤ max → pos n ≤ℤ max)
    → pos 0 <ℤ incr max
    → pos (n + 1) ≤ℤ incr max
unfolding incr suc_ℤ int_max int_min
raise_for_one (pos k) n h w p = ground arith
raise_for_one (negsuc k) n h w p = ground arith

no_raise :
    (max : ℤ) (n : ℕ)
    → (ltb_ℤ (pos 0) max && ltb_ℤ max (pos (n + 1))) ≡ false
    → pos 0 <ℤ max
    → pos (n + 1) ≤ℤ max
no_raise max n h p = ground arith

seats-admitted :
    (g : HostedGroup) (from : String) (now : ℕ) → seats (admitted g from now) ≤ suc (seats g)
unfolding seats admitted
seats-admitted g from now = elim (Bool-cases g.host_joined) [
  | inl e ↦ rw e (omega (arith, size-insert from _ g.members))
  | inr e ↦ rw e (size-insert from _ g.members)
]

admitted-IsWithin :
    (g : HostedGroup) (from : String) (now : ℕ) → is_full g ≡ false → IsWithin (admitted g from now)
unfolding is_full
admitted-IsWithin g from now room = record {
  within = λ positive.
      let fits : pos (suc (seats g)) ≤ℤ g.info.max_members =
        room_for_one g.info.max_members (seats g) room (unfold admitted in positive) in
      unfold admitted in omega (arith, fits, seats-admitted g from now);
}

seats_outside : (g : HostedGroup) → g.host_joined ≡ false → seats g ≡ size g.members
unfolding seats
seats_outside g h = rw h refl

host_enters-IsWithin :
    (g : HostedGroup) (now : ℕ) → g.host_joined ≡ false → IsWithin g → IsWithin (host_enters g now)
unfolding host_enters raised seats
host_enters-IsWithin g now h w =
    let old : pos 0 <ℤ g.info.max_members → pos (size g.members) ≤ℤ g.info.max_members =
      λ p. subst (λ n. pos n ≤ℤ g.info.max_members) (seats_outside g h) (w.within p) in
    elim (Bool-cases (must_grow g)) [
      | inl e ↦ rw e (record {
        within = raise_for_one g.info.max_members (size g.members) (unfold must_grow in e) old;
      })
      | inr e ↦
          rw e (record {
            within = no_raise g.info.max_members (size g.members) (unfold must_grow in e);
          })
    ]

seats_fewer :
    (g : HostedGroup) (m : Map MemberMeta)
    → size m ≤ size g.members
    → seats (record g { members = m }) ≤ seats g
unfolding seats
seats_fewer g m l = elim (Bool-cases g.host_joined) [ inl e ↦ rw e (omega arith) | inr e ↦ rw e l ]

seats_most : (g : HostedGroup) → size g.members ≤ seats g
unfolding seats
seats_most g = elim (Bool-cases g.host_joined) [
  | inl e ↦ rw e (omega arith)
  | inr e ↦ rw e (omega arith)
]

-- Fewer seats, or as many, under the same limit.
fewer-IsWithin :
    (g : HostedGroup) (m : Map MemberMeta)
    → size m ≤ size g.members
    → IsWithin g
    → IsWithin (record g { members = m })
unfolding seats
fewer-IsWithin g m l w = record { within = λ p. omega (arith, w.within p, seats_fewer g m l) }

handle_join-IsWithin :
    (g : HostedGroup) (from : String) (now : ℕ) → IsWithin g → IsWithin (handle_join g from now)
unfolding handle_join
handle_join-IsWithin g from now w = elim (Bool-cases (is_full g)) [
  | inl e ↦ rw e (emit-IsWithin _ g w)
  | inr e ↦ rw e (
      handler-IsWithin _ _ (
        emit-IsWithin _ _ (
          save-IsWithin _ (
            emit-IsWithin _ _
              (members-IsWithin from _ (emit-IsWithin _ _ (admitted-IsWithin g from now e)))))))
]

erased-IsWithin :
    (g : HostedGroup) (id : String)
    → IsWithin g
    → IsWithin (record g { members = erase id g.members })
erased-IsWithin g id w = fewer-IsWithin g (erase id g.members) (size-erase id g.members) w

announce-IsWithin :
    (grows : Bool) (g : HostedGroup) → IsWithin g → IsWithin (announce_raise grows g)
unfolding announce_raise broadcast_meta
announce-IsWithin grows g w = elim (Bool-cases (grows && ltb_ℤ (pos 0) g.info.max_members)) [
  | inl e ↦ rw e (emit-IsWithin _ _ (broadcast-IsWithin _ "" _ (emit-IsWithin _ g w)))
  | inr e ↦ rw e w
]

host_exits-IsWithin : (g : HostedGroup) → IsWithin g → IsWithin (host_exits g)
unfolding host_exits seats
host_exits-IsWithin g w = record { within = λ p. omega (arith, w.within p, seats_most g) }

guarded-IsWithin :
    (g : HostedGroup) (b : Bool) (e : GroupError) (r : Result GroupError HostedGroup)
    → IsWithin g
    → (b ≡ false → IsWithin (or_same g r))
    → IsWithin (or_same g (if b then err e else r))
unfolding or_same
guarded-IsWithin g true e r w k = w
guarded-IsWithin g false e r w k = k refl

set_role-IsWithin :
    (g : HostedGroup) (id role : String)
    → IsWithin g
    → IsWithin (or_same g (set_member_role g id role))
unfolding set_member_role or_same
set_role-IsWithin g id role w = elim (Option-cases (lookup id g.members)) [
  | inl e ↦ rw (e, set_member_role) w
  | inr (mm, e) ↦
      let m = insert id (record mm { role = role }) g.members in
      let same : size m ≡ size g.members = size-insert_old id _ mm g.members e in
      let changed = fewer-IsWithin g m (omega (arith, same)) w in
      elim (Bool-cases (is_volatile g.handler)) [
        | inl f ↦ rw (e, set_member_role, f) (emit-IsWithin _ _ (members-IsWithin "" _ changed))
        | inr f ↦
            rw (e, set_member_role, f)
              (emit-IsWithin _ _
                (members-IsWithin "" _ (save-IsWithin _ (emit-IsWithin _ _ changed))))
      ]
]

step-IsWithin : (g : HostedGroup) (o : Op) → IsWithin g → IsWithin (step g o)
unfolding step kick_member remove_member_and_broadcast or_same
step-IsWithin g (Op.joins from now) w = handle_join-IsWithin g from now w
step-IsWithin g (Op.leaves from) w =
    unfold handle_leave in
    handler-IsWithin _ _ (
      emit-IsWithin _ _
        (save-IsWithin _ (emit-IsWithin _ _ (members-IsWithin "" _ (erased-IsWithin g from w)))))
step-IsWithin g (Op.relays from type payload) w =
    unfold handle_relay in emit-IsWithin _ _ (broadcast-IsWithin _ from g w)
step-IsWithin g (Op.kicks id) w = elim (Option-cases (lookup id g.members)) [
  | inl e ↦ rw (e, kick_member) w
  | inr (_, e) ↦
      rw (e, kick_member)
        (save-IsWithin _
          (emit-IsWithin _ _ (members-IsWithin "" _ (emit-IsWithin _ _ (erased-IsWithin g id w)))))
]
step-IsWithin g (Op.removes id) w = elim (Option-cases (lookup id g.members)) [
  | inl e ↦ rw (e, remove_member_and_broadcast) w
  | inr (_, e) ↦
      rw (e, remove_member_and_broadcast)
        (save-IsWithin _ (emit-IsWithin _ _ (members-IsWithin "" _ (erased-IsWithin g id w))))
]
step-IsWithin g (Op.sets_role id role) w = set_role-IsWithin g id role w
step-IsWithin g (Op.host_joins now) w =
    unfold join_own_group in
    guarded-IsWithin g (not (may_host_join g.handler)) _ _ w (λ _.
      guarded-IsWithin g g.host_joined _ _ w (λ outside. handler-IsWithin _ _ (
        emit-IsWithin _ _ (
          members-IsWithin "" _ (
            announce-IsWithin (must_grow g) _
              (emit-IsWithin _ _ (host_enters-IsWithin g now outside w)))))))
step-IsWithin g Op.host_leaves w =
    unfold leave_own_group in
    guarded-IsWithin g (not g.host_joined) _ _ w (λ _.
      guarded-IsWithin g (ltb_ℤ (pos 0) (pos (size g.members))) _ _ w (λ _.
        handler-IsWithin _ _ (
          emit-IsWithin _ _ (members-IsWithin "" _ (emit-IsWithin _ _ (host_exits-IsWithin g w))))))

-- While nobody sets the limit to another number, a group that does not have more members than its
-- positive limit, the host that joined counted, never gets more, whatever peers join, leave, are
-- kicked or removed, and though the host may enter a full group: the limit is raised for it.
pub run-IsWithin : (g : HostedGroup) (os : List Op) → IsWithin g → IsWithin (run g os)
unfolding run
run-IsWithin g [] w = w
run-IsWithin g (o ∷ os) w = run-IsWithin (step g o) os (step-IsWithin g o w)
