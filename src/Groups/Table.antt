-- ===== src/Groups/Table.antt =====
-- internal/group, the host's side: the table of hosted groups (CreateGroup, RestoreGroup, CloseGroup and
-- the start in manager.go) with their rows in internal/storage/groups.go, where the database works. What
-- an operation on one group writes are those of its effects that name a row.
pub mod Writes
pub mod Rows
pub mod Capacity
pub mod Volatile
use goop.Base.{
  ℕ, suc, ◌+◌, Bool, true, false, ◌&&◌, ◌||◌, not, String, List, [], ◌∷◌, ◌++◌, Option, none, some,
  if◌then◌else◌, ◌==◌, Result, ok, err, leb,
}
use goop.Base.Int.{ℤ, pos}
use goop.Base.Map.{Map, lookup, insert, erase, total}
use goop.Base.Json.{Value}
use goop.Groups.{
  HostedGroup, GroupRow, GroupTypeFlags, MemberInfo, Effect, GroupError, Op, is_volatile,
  member_list, emit, send_each, call_handler, step, set_max_members, update_group_meta,
  set_default_role, set_group_roles, or_same,
}

abbrev pub max_hosted_groups : ℕ
max_hosted_groups = 50

-- A row of _groups.
pub record StoredGroup : Type 0 where
  pub info : GroupRow
  pub host_joined : Bool

-- `member_rows` has the rows of _group_members by their group, `outbox` what the groups did, newest
-- first.
pub record Table : Type 0 where
  pub self_id : String
  pub handlers : Map GroupTypeFlags
  pub groups : Map HostedGroup
  pub rows : Map StoredGroup
  pub member_rows : Map (List MemberInfo)
  pub outbox : List (String × Effect)

pub data TableError : Type 0 where
  group_not_found : TableError
  too_many_groups : TableError
  duplicate_id : TableError
  refused_by_type : TableError

unfoldable pub stored : HostedGroup → StoredGroup
stored g = record { info = g.info; host_joined = g.host_joined }

unfoldable pub write : Effect → StoredGroup → StoredGroup
write (Effect.max_saved max) s = record s { info = record (s.info) { max_members = max } }
write (Effect.meta_saved name max) s = record s {
  info = record (s.info) { name = name; max_members = max };
}
write (Effect.default_role_saved role) s = record s {
  info = record (s.info) { default_role = role };
}
write (Effect.roles_saved roles) s = record s { info = record (s.info) { roles = roles } }
write (Effect.host_saved joined) s = record s { host_joined = joined }
write _ s = s

-- Effects stand newest first.
unfoldable pub writes : List Effect → StoredGroup → StoredGroup
writes [] s = s
writes (e ∷ es) s = write e (writes es s)

unfoldable pub write_role : String → String → List MemberInfo → List MemberInfo
write_role peer_id role [] = []
write_role peer_id role (m ∷ ms) =
    let rest = write_role peer_id role ms in
    if m.peer_id == peer_id then record m { role = role } ∷ rest else m ∷ rest

-- A member without a role is stored as a viewer.
unfoldable pub as_stored : List MemberInfo → List MemberInfo
as_stored [] = []
as_stored (m ∷ ms) = record m { role = if m.role == "" then "viewer" else m.role } ∷ as_stored ms

unfoldable pub write_members : Effect → List MemberInfo → List MemberInfo
write_members (Effect.members_saved ms) old = as_stored ms
write_members (Effect.role_saved peer_id role) old = write_role peer_id role old
write_members _ old = old

unfoldable pub members_of : Option (List MemberInfo) → List MemberInfo
members_of none = []
members_of (some ms) = ms

unfoldable pub all_members : List Effect → List MemberInfo → List MemberInfo
all_members [] ms = ms
all_members (e ∷ es) ms = write_members e (all_members es ms)

unfoldable pub sent_by : String → List Effect → List (String × Effect) → List (String × Effect)
sent_by id [] rest = rest
sent_by id (e ∷ es) rest = (id, e) ∷ sent_by id es rest

-- The group `id` after an operation that left it as `g`, with its effects.
unfoldable pub settle : String → HostedGroup → Table → Table
settle id g t = record t {
  groups = insert id (record g { effects = [] }) t.groups;
  rows = elim (lookup id t.rows) [
    | none ↦ t.rows
    | some row ↦ insert id (writes g.effects row) t.rows
  ];
  member_rows =
      insert id (all_members g.effects (members_of (lookup id t.member_rows))) t.member_rows;
  outbox = sent_by id g.effects t.outbox;
}

-- An operation on one group, by its id.
unfoldable pub on_group : String → (HostedGroup → HostedGroup) → Table → Result TableError Table
on_group id f t = elim (lookup id t.groups) [
  | none ↦ err TableError.group_not_found
  | some g ↦ ok (settle id (f (record g { effects = [] })) t)
]

-- Members other than the host learn of the end.
unfoldable pub closed : String → HostedGroup → HostedGroup
closed self g =
    let told = record g { effects = send_each self self Effect.close_sent (member_list g) [] } in
    call_handler Effect.on_close (emit (Effect.event "close" "") told)

unfoldable pub close_group : String → Table → Result TableError Table
close_group id t = elim (lookup id t.groups) [
  | none ↦ err TableError.group_not_found
  | some g ↦ ok (record t {
    groups = erase id t.groups;
    rows = erase id t.rows;
    member_rows = erase id t.member_rows;
    outbox = sent_by id (closed t.self_id g).effects t.outbox;
  })
]

unfoldable pub or_unchanged : Table → Result TableError Table → Table
or_unchanged t (ok t') = t'
or_unchanged t (err _) = t

unfoldable pub ids_of_type : String → Map HostedGroup → List String
ids_of_type group_type [] = []
ids_of_type group_type ((id, g) ∷ gs) =
    let rest = ids_of_type group_type gs in
    if g.info.group_type == group_type then id ∷ rest else rest

unfoldable pub close_all : List String → Table → Table
close_all [] t = t
close_all (id ∷ ids) t = close_all ids (or_unchanged t (close_group id t))

unfoldable pub is_volatile_type : Map GroupTypeFlags → String → Bool
is_volatile_type handlers group_type = is_volatile (lookup group_type handlers)

unfoldable pub is_stable : Map GroupTypeFlags → HostedGroup → ℕ
is_stable handlers g = if is_volatile_type handlers g.info.group_type then 0 else 1

unfoldable pub stable_count : Table → ℕ
stable_count t = total (is_stable t.handlers) t.groups

-- The row that the INSERT makes, with the defaults of the other columns.
unfoldable pub new_row : String → String → String → ℤ → GroupRow
new_row name group_type group_context max = record {
  name = name;
  group_type = group_type;
  group_context = group_context;
  default_role = "viewer";
  roles = [];
  max_members = max;
}

unfoldable pub fresh_group : Table → GroupRow → Bool → HostedGroup
fresh_group t row host_joined = record {
  self_id = t.self_id;
  handler = lookup row.group_type t.handlers;
  info = row;
  members = [];
  host_joined = host_joined;
  host_joined_at = 0;
  effects = [];
}

-- The INSERT fails where the id is there.
unfoldable pub inserted : String → GroupRow → Table → Result TableError Table
inserted id row t = elim (lookup id t.rows) [
  | some _ ↦ err TableError.duplicate_id
  | none ↦ ok (record t {
    groups = insert id (fresh_group t row false) t.groups;
    rows = insert id (record { info = row; host_joined = false }) t.rows;
  })
]

-- OnCreate of the type's handler, which may refuse the group.
unfoldable pub accepted : Bool → String → GroupRow → Table → Table × Result TableError Unit
accepted accepts id row t = elim (lookup row.group_type t.handlers) [
  | none ↦ (t, ok tt)
  | some _ ↦
      let asked = record t { outbox = (id, Effect.on_create) ∷ t.outbox } in
      if accepts
      then (asked, ok tt)
      else (or_unchanged asked (close_group id asked), err TableError.refused_by_type)
]

unfoldable pub made_room : String → Table → Table
made_room group_type t =
    if is_volatile_type t.handlers group_type
    then close_all (ids_of_type group_type t.groups) t
    else t

unfoldable pub is_over_limit : String → Table → Bool
is_over_limit group_type t =
    not (is_volatile_type t.handlers group_type) && leb max_hosted_groups (stable_count t)

-- A failure can leave groups closed that a volatile one was to replace.
unfoldable pub create_group :
    Bool → String → String → String → String → ℤ → Table → Table × Result TableError Unit
create_group accepts id name group_type group_context max t =
    let row = new_row name group_type group_context max in
    let t' = made_room group_type t in
    if is_over_limit group_type t'
    then (t', err TableError.too_many_groups)
    else elim (inserted id row t') [ err e ↦ (t', err e) | ok t'' ↦ accepted accepts id row t'' ]

unfoldable pub restore_group : String → Table → Table
restore_group id t = elim (lookup id t.rows) [
  | none ↦ t
  | some row ↦ elim (lookup id t.groups) [
    | some _ ↦ t
    | none ↦ record t { groups = insert id (fresh_group t row.info false) t.groups }
  ]
]

unfoldable pub loaded : Table → Map StoredGroup → Map HostedGroup
loaded t [] = []
loaded t ((id, row) ∷ rows) = (id, fresh_group t row.info row.host_joined) ∷ loaded t rows

-- A new start of the program: the groups come from their rows, the members are to join again.
unfoldable pub restart : Table → Table
restart t = record t { groups = loaded t t.rows }

unfoldable pub with_handler : String → GroupTypeFlags → Map HostedGroup → Map HostedGroup
with_handler group_type h [] = []
with_handler group_type h ((id, g) ∷ gs) =
    let rest = with_handler group_type h gs in
    if g.info.group_type == group_type
    then (id, record g { handler = some h }) ∷ rest
    else (id, g) ∷ rest

-- RegisterType: the methods look the handler up whenever they need it. The program registers all types
-- at its start, right after `restart`, which has them already.
unfoldable pub register_type : String → GroupTypeFlags → Table → Table
register_type group_type h t = record t {
  handlers = insert group_type h t.handlers;
  groups = with_handler group_type h t.groups;
}

-- What can be done to one group.
pub data Change : Type 0 where
  steps : Op → Change
  sets_max : ℤ → Change
  sets_meta : String → ℤ → Change
  sets_default_role : String → Change
  sets_roles : List String → Change

unfoldable pub change : Change → HostedGroup → HostedGroup
change (Change.steps op) g = step g op
change (Change.sets_max max) g = set_max_members g max
change (Change.sets_meta name max) g = or_same g (update_group_meta g name max)
change (Change.sets_default_role role) g = set_default_role g role
change (Change.sets_roles roles) g = set_group_roles g roles

pub data TableOp : Type 0 where
  creates : Bool → String → String → String → String → ℤ → TableOp
  closes : String → TableOp
  restores : String → TableOp
  changes : String → Change → TableOp
  restarts : TableOp

unfoldable pub act : TableOp → Table → Table
act (TableOp.creates accepts id name group_type group_context max) t =
    (create_group accepts id name group_type group_context max t).0
act (TableOp.closes id) t = or_unchanged t (close_group id t)
act (TableOp.restores id) t = restore_group id t
act (TableOp.changes id c) t = or_unchanged t (on_group id (change c) t)
act TableOp.restarts t = restart t

unfoldable pub act_all : Table → List TableOp → Table
act_all t [] = t
act_all t (op ∷ ops) = act_all (act op t) ops
