-- ===== src/Groups.antt =====
-- internal/group, the host's side: one hosted group with its members, and what the host sends about
-- it. Each operation is one step, with its sends in the order of the calls. Failed sends come back as
-- steps of remove_member_and_broadcast.
pub mod Broadcast
pub mod Limit
pub mod Views
pub mod Table
pub mod Client
use goop.Base.{
  ℕ, suc, ◌+◌, Bool, true, false, ◌&&◌, ◌||◌, not, String, List, [], ◌∷◌, Option, none, some,
  if◌then◌else◌, ◌==◌, Result, ok, err,
}
use goop.Base.Int.{ℤ, pos, ltb_ℤ, leb_ℤ, incr}
use goop.Base.Map.{Map, lookup, insert, erase, size}
use goop.Base.Json.{Value}

pub record MemberMeta : Type 0 where
  pub role : String
  pub joined_at : ℕ

pub record MemberInfo : Type 0 where
  pub peer_id : String
  pub role : String
  pub joined_at : ℕ

pub record GroupRow : Type 0 where
  pub name : String
  pub group_type : String
  pub group_context : String
  pub default_role : String
  pub roles : List String
  pub max_members : ℤ

-- The flags of the type's handler.
pub record GroupTypeFlags : Type 0 where
  pub host_can_join : Bool
  pub volatile : Bool

-- What the operations do beside their change of the group, to whom it goes first: messages to a
-- peer, local events, writes to the database, calls of the type's handler.
pub data Effect : Type 0 where
  welcome : String → GroupRow → Bool → List MemberInfo → Effect
  full : String → Effect
  members_sent : String → List MemberInfo → Effect
  meta_sent : String → GroupRow → Effect
  close_sent : String → Effect
  relayed : String → String → Value → Effect
  event : String → String → Effect
  members_saved : List MemberInfo → Effect
  max_saved : ℤ → Effect
  role_saved : String → String → Effect
  host_saved : Bool → Effect
  meta_saved : String → ℤ → Effect
  default_role_saved : String → Effect
  roles_saved : List String → Effect
  on_join on_leave : String → Bool → Effect
  on_create on_close : Effect

-- `handler` is that of the group's type, if one is registered. The key of an entry of `members` is its
-- peerID.
pub record HostedGroup : Type 0 where
  pub self_id : String
  pub handler : Option GroupTypeFlags
  pub info : GroupRow
  pub members : Map MemberMeta
  pub host_joined : Bool
  pub host_joined_at : ℕ
  -- newest first
  pub effects : List Effect

unfoldable pub is_volatile : Option GroupTypeFlags → Bool
is_volatile none = false
is_volatile (some f) = f.volatile

unfoldable pub infos : Map MemberMeta → List MemberInfo
infos [] = []
infos ((id, m) ∷ ms) = record { peer_id = id; role = m.role; joined_at = m.joined_at } ∷ infos ms

unfoldable pub member_list : HostedGroup → List MemberInfo
member_list g =
    if g.host_joined
    then record { peer_id = g.self_id; role = "owner"; joined_at = g.host_joined_at }
      ∷ infos g.members
    else infos g.members

unfoldable pub emit : Effect → HostedGroup → HostedGroup
emit e g = record g { effects = e ∷ g.effects }

-- The loop of broadcastToGroup.
unfoldable pub send_each :
    String → String → (String → Effect) → List MemberInfo → List Effect → List Effect
send_each self excluded message [] sent = sent
send_each self excluded message (mi ∷ mis) sent =
    if mi.peer_id == self || mi.peer_id == excluded
    then send_each self excluded message mis sent
    else send_each self excluded message mis (message mi.peer_id ∷ sent)

unfoldable pub broadcast_to_group : (String → Effect) → String → HostedGroup → HostedGroup
broadcast_to_group message excluded g = record g {
  effects = send_each g.self_id excluded message (member_list g) g.effects;
}

unfoldable pub broadcast_members : String → HostedGroup → HostedGroup
broadcast_members excluded g =
    broadcast_to_group (λ p. Effect.members_sent p (member_list g)) excluded g

unfoldable pub save_members : HostedGroup → HostedGroup
save_members g = if is_volatile g.handler then g else emit (Effect.members_saved (member_list g)) g

unfoldable pub call_handler : Effect → HostedGroup → HostedGroup
call_handler e g = elim g.handler [ none ↦ g | some _ ↦ emit e g ]

-- `len(hg.members)`, and one more for the host
unfoldable pub seats : HostedGroup → ℕ
seats g = if g.host_joined then size g.members + 1 else size g.members

unfoldable pub is_full : HostedGroup → Bool
is_full g = ltb_ℤ (pos 0) g.info.max_members && leb_ℤ g.info.max_members (pos (seats g))

unfoldable pub admitted : HostedGroup → String → ℕ → HostedGroup
admitted g from now =
    let role = if g.info.default_role == "" then "viewer" else g.info.default_role in
    record g { members = insert from (record { role = role; joined_at = now }) g.members }

-- The case TypeJoin of handleHostMessage.
unfoldable pub handle_join : HostedGroup → String → ℕ → HostedGroup
handle_join g from now =
    let g' = admitted g from now in
    let welcomed = emit (Effect.welcome from g.info (is_volatile g.handler) (member_list g')) g' in
    let told = emit (Effect.event "members" "") (broadcast_members from welcomed) in
    if is_full g
    then emit (Effect.full from) g
    else call_handler (Effect.on_join from false)
        (emit (Effect.event "join" from) (save_members told))

-- The case TypeLeave.
unfoldable pub handle_leave : HostedGroup → String → HostedGroup
handle_leave g from =
    let g' = record g { members = erase from g.members } in
    let told = emit (Effect.event "members" from) (broadcast_members "" g') in
    call_handler (Effect.on_leave from false) (emit (Effect.event "leave" from) (save_members told))

-- The case TypeMsg, TypeState.
unfoldable pub handle_relay : HostedGroup → String → String → Value → HostedGroup
handle_relay g from msg_type payload =
    emit (Effect.event msg_type from)
      (broadcast_to_group (λ p. Effect.relayed p msg_type payload) from g)

pub data GroupError : Type 0 where
  member_not_found host_not_allowed host_already_joined host_not_joined : GroupError
  members_left : ℕ → GroupError
  empty_name : GroupError

unfoldable pub kick_member : HostedGroup → String → Result GroupError HostedGroup
kick_member g peer_id = elim (lookup peer_id g.members) [
  | none ↦ err GroupError.member_not_found
  | some _ ↦
      let g' = record g { members = erase peer_id g.members } in
      ok (
        save_members (
          emit (Effect.event "leave" peer_id)
            (broadcast_members "" (emit (Effect.close_sent peer_id) g'))))
]

unfoldable pub remove_member_and_broadcast : HostedGroup → String → HostedGroup
remove_member_and_broadcast g peer_id = elim (lookup peer_id g.members) [
  | none ↦ g
  | some _ ↦
      let g' = record g { members = erase peer_id g.members } in
      save_members (emit (Effect.event "members" peer_id) (broadcast_members "" g'))
]

unfoldable pub broadcast_meta : HostedGroup → HostedGroup
broadcast_meta g =
    emit (Effect.event "meta" "") (broadcast_to_group (λ p. Effect.meta_sent p g.info) "" g)

-- SetMaxMembers, where the database works.
unfoldable pub set_max_members : HostedGroup → ℤ → HostedGroup
set_max_members g max =
    broadcast_meta
      (emit (Effect.max_saved max) (record g { info = record (g.info) { max_members = max } }))

-- UpdateGroupMeta, SetDefaultRole and SetGroupRoles, where the database works.
unfoldable pub update_group_meta : HostedGroup → String → ℤ → Result GroupError HostedGroup
update_group_meta g name max =
    let renamed = record g { info = record (g.info) { name = name; max_members = max } } in
    if name == ""
    then err GroupError.empty_name
    else ok (broadcast_meta (emit (Effect.meta_saved name max) renamed))

unfoldable pub set_default_role : HostedGroup → String → HostedGroup
set_default_role g role = record (emit (Effect.default_role_saved role) g) {
  info = record (g.info) { default_role = role };
}

unfoldable pub set_group_roles : HostedGroup → List String → HostedGroup
set_group_roles g roles = record (emit (Effect.roles_saved roles) g) {
  info = record (g.info) { roles = roles };
}

unfoldable pub set_member_role : HostedGroup → String → String → Result GroupError HostedGroup
set_member_role g peer_id role = elim (lookup peer_id g.members) [
  | none ↦ err GroupError.member_not_found
  | some mm ↦
      let g' = record g { members = insert peer_id (record mm { role = role }) g.members } in
      let saved =
        if is_volatile g.handler
        then g'
        else save_members (emit (Effect.role_saved peer_id role) g') in
      ok (emit (Effect.event "members" "") (broadcast_members "" saved))
]

unfoldable pub may_host_join : Option GroupTypeFlags → Bool
may_host_join none = true
may_host_join (some f) = f.host_can_join

-- `len(hg.members)+1 > hg.info.MaxMembers` for a limit
unfoldable pub must_grow : HostedGroup → Bool
must_grow g =
    ltb_ℤ (pos 0) g.info.max_members && ltb_ℤ g.info.max_members (pos (size g.members + 1))

unfoldable pub raised : HostedGroup → HostedGroup
raised g =
    if must_grow g
    then record g { info = record (g.info) { max_members = incr g.info.max_members } }
    else g

unfoldable pub host_enters : HostedGroup → ℕ → HostedGroup
host_enters g now = record (raised g) { host_joined = true; host_joined_at = now }

-- The limit is announced if it is a new one, `newMax > 0`.
unfoldable pub announce_raise : Bool → HostedGroup → HostedGroup
announce_raise grows g =
    if grows && ltb_ℤ (pos 0) g.info.max_members
    then broadcast_meta (emit (Effect.max_saved g.info.max_members) g)
    else g

unfoldable pub join_own_group : HostedGroup → ℕ → Result GroupError HostedGroup
join_own_group g now =
    let g' = emit (Effect.host_saved true) (host_enters g now) in
    if not (may_host_join g.handler)
    then err GroupError.host_not_allowed
    else if g.host_joined
    then err GroupError.host_already_joined
    else ok (
        call_handler (Effect.on_join g.self_id true) (
          emit (Effect.event "members" "")
            (broadcast_members "" (announce_raise (must_grow g) g'))))

unfoldable pub host_exits : HostedGroup → HostedGroup
host_exits g = record g { host_joined = false; host_joined_at = 0 }

unfoldable pub leave_own_group : HostedGroup → Result GroupError HostedGroup
leave_own_group g =
    if not g.host_joined
    then err GroupError.host_not_joined
    else if ltb_ℤ (pos 0) (pos (size g.members))
    then err (GroupError.members_left (size g.members))
    else ok (
        call_handler (Effect.on_leave g.self_id true) (
          emit (Effect.event "members" "")
            (broadcast_members "" (emit (Effect.host_saved false) (host_exits g)))))

pub data Op : Type 0 where
  joins : String → ℕ → Op
  leaves : String → Op
  relays : String → String → Value → Op
  kicks removes : String → Op
  sets_role : String → String → Op
  host_joins : ℕ → Op
  host_leaves : Op

unfoldable pub or_same : HostedGroup → Result GroupError HostedGroup → HostedGroup
or_same g (ok g') = g'
or_same g (err _) = g

unfoldable pub step : HostedGroup → Op → HostedGroup
step g (joins from now) = handle_join g from now
step g (leaves from) = handle_leave g from
step g (relays from msg_type payload) = handle_relay g from msg_type payload
step g (kicks peer_id) = or_same g (kick_member g peer_id)
step g (removes peer_id) = remove_member_and_broadcast g peer_id
step g (sets_role peer_id role) = or_same g (set_member_role g peer_id role)
step g (host_joins now) = or_same g (join_own_group g now)
step g host_leaves = or_same g (leave_own_group g)

unfoldable pub run : HostedGroup → List Op → HostedGroup
run g [] = g
run g (o ∷ os) = run (step g o) os
