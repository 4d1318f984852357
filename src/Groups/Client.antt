-- ===== src/Groups/Client.antt =====
-- internal/group, the member's side: client.go, and handleMemberMessage and the pending joins of
-- routing.go, with the rows of _group_subscriptions in internal/storage/groups.go, where the database
-- works. A join is two steps of its own, between which messages come.
pub mod Handshake
pub mod Failures
use goop.Base.{
  ℕ, Bool, true, false, ◌&&◌, ◌||◌, not, String, List, [], ◌∷◌, ◌++◌, Option, none, some,
  if◌then◌else◌, ◌==◌, Result, ok, err,
}
use goop.Base.Int.{ℤ}
use goop.Base.Map.{Map, lookup, insert, erase}
use goop.Base.Json.{Value, get, as_text, as_object}
use goop.Groups.{GroupRow, GroupTypeFlags, MemberInfo, is_volatile}
use goop.Groups.Table.{is_volatile_type, as_stored}

-- The payload of a welcome message.
pub record WelcomePayload : Type 0 where
  pub group_name : String
  pub group_type : String
  pub group_context : String
  pub max_members : ℤ
  pub members : List MemberInfo

pub record MetaPayload : Type 0 where
  pub group_name : String
  pub group_type : String
  pub max_members : ℤ

-- A message for a group as it is decoded: `none` is a payload that cannot be, and `payload` is that of
-- msg or state. A member ignores all other types.
pub data Incoming : Type 0 where
  welcome : Option WelcomePayload → Incoming
  error : Value → Incoming
  members : Option (List MemberInfo) → Value → Incoming
  close : Incoming
  ping : Incoming
  meta : Option MetaPayload → Value → Incoming
  payload : String → Value → Incoming

-- The errors of JoinRemoteGroup and LeaveGroup.
pub data ClientError : Type 0 where
  invalid_host : ClientError
  send_failed : ClientError
  timed_out : ClientError
  rejected : String → ClientError
  not_connected : ClientError

pub record ClientConn : Type 0 where
  pub host_peer_id : String
  pub group_type : String
  pub members : List MemberInfo

-- The key of a row is the pair of the first two.
pub record Subscription : Type 0 where
  pub host_peer_id : String
  pub group_id : String
  pub group_name : String
  pub group_type : String
  pub max_members : ℤ
  pub volatile : Bool

pub data Action : Type 0 where
  sent : String → String → String → Action
  event : String → String → String → Action
  on_close : String → Action

-- `conns` and `pending` go by the group, and `pending` has the channels of the joins under way with
-- what they hold. `actions` stand newest first.
pub record Client : Type 0 where
  pub handlers : Map GroupTypeFlags
  pub conns : Map ClientConn
  pub pending : Map (Option (Result ClientError WelcomePayload))
  pub subscriptions : List Subscription
  pub member_rows : Map (List MemberInfo)
  pub actions : List Action

unfoldable pub does : Action → Client → Client
does a c = record c { actions = a ∷ c.actions }

unfoldable pub is_row : String → String → Subscription → Bool
is_row host_peer_id group_id s = s.host_peer_id == host_peer_id && s.group_id == group_id

unfoldable pub remove_subscription : String → String → List Subscription → List Subscription
remove_subscription host_peer_id group_id [] = []
remove_subscription host_peer_id group_id (s ∷ ss) =
    let rest = remove_subscription host_peer_id group_id ss in
    if is_row host_peer_id group_id s then rest else s ∷ rest

-- `INSERT OR REPLACE`
unfoldable pub add_subscription : Subscription → List Subscription → List Subscription
add_subscription s ss = s ∷ remove_subscription s.host_peer_id s.group_id ss

-- The end of a connection, for LeaveGroup and for a join to the same group.
unfoldable pub drop_conn : String → ClientConn → Client → Client
drop_conn group_id cc c = record (does (Action.sent cc.host_peer_id group_id "leave") c) {
  conns = erase group_id c.conns;
  subscriptions = remove_subscription cc.host_peer_id group_id c.subscriptions;
  member_rows = erase group_id c.member_rows;
}

unfoldable pub leave_old : String → Client → Client
leave_old group_id c = elim (lookup group_id c.conns) [
  | none ↦ c
  | some cc ↦ drop_conn group_id cc c
]

-- The first part of JoinRemoteGroup, up to the send of the join, with the outcome of decoding the
-- host's id. After an error the join is over.
unfoldable pub start_join :
    Bool → Bool → String → String → Client → Client × Result ClientError Unit
start_join decodes sends host_peer_id group_id c =
    let c' = leave_old group_id c in
    let waiting = record c' { pending = insert group_id none c'.pending } in
    if not decodes
    then (c', err ClientError.invalid_host)
    else if not sends
    then (record c' { pending = erase group_id c'.pending }, err ClientError.send_failed)
    else (does (Action.sent host_peer_id group_id "join") waiting, ok tt)

-- `case ch <- joinResult{…}: default:`
unfoldable pub fill :
    Result ClientError WelcomePayload
    → Option (Result ClientError WelcomePayload)
    → Option (Result ClientError WelcomePayload)
fill r none = some r
fill r (some old) = some old

unfoldable pub store_members : Bool → String → List MemberInfo → Client → Client
store_members keeps group_id ms c =
    if keeps then record c { member_rows = insert group_id (as_stored ms) c.member_rows } else c

-- Rows of the same type but of another group.
unfoldable pub is_stale : String → String → Subscription → Bool
is_stale group_type group_id s = s.group_type == group_type && not (s.group_id == group_id)

unfoldable pub without_stale : String → String → List Subscription → List Subscription
without_stale group_type group_id [] = []
without_stale group_type group_id (s ∷ ss) =
    let rest = without_stale group_type group_id ss in
    if is_stale group_type group_id s then rest else s ∷ rest

unfoldable pub without_stale_members :
    String → String → List Subscription → Map (List MemberInfo) → Map (List MemberInfo)
without_stale_members group_type group_id [] rows = rows
without_stale_members group_type group_id (s ∷ ss) rows =
    let fewer = erase s.group_id rows in
    if is_stale group_type group_id s
    then without_stale_members group_type group_id ss fewer
    else without_stale_members group_type group_id ss rows

unfoldable pub wipe_stale : Bool → String → String → Client → Client
wipe_stale volatile group_type group_id c =
    if volatile
    then record c {
      subscriptions = without_stale group_type group_id c.subscriptions;
      member_rows = without_stale_members group_type group_id c.subscriptions c.member_rows;
    }
    else c

unfoldable pub is_empty : List MemberInfo → Bool
is_empty [] = true
is_empty (_ ∷ _) = false

unfoldable pub welcomed : String → String → WelcomePayload → Client → Client
welcomed host_peer_id group_id wp c =
    let volatile = is_volatile_type c.handlers wp.group_type in
    let conn : ClientConn = record {
      host_peer_id = host_peer_id;
      group_type = wp.group_type;
      members = wp.members;
    } in
    let row : Subscription = record {
      host_peer_id = host_peer_id;
      group_id = group_id;
      group_name = wp.group_name;
      group_type = wp.group_type;
      max_members = wp.max_members;
      volatile = volatile;
    } in
    let connected = record c { conns = insert group_id conn c.conns } in
    let stored =
      store_members (not volatile && not (is_empty wp.members)) group_id wp.members connected in
    let wiped = wipe_stale volatile wp.group_type group_id stored in
    does (Action.event "welcome" group_id host_peer_id)
      (record wiped { subscriptions = add_subscription row wiped.subscriptions })

-- The rest of JoinRemoteGroup: the channel has a result, or the time is over. The deferred function
-- takes the channel away.
unfoldable pub finish_join : String → String → Client → Client × Result ClientError Unit
finish_join host_peer_id group_id c =
    let over = record c { pending = erase group_id c.pending } in
    elim (lookup group_id c.pending) [
      | none ↦ (over, err ClientError.timed_out)
      | some slot ↦ elim slot [
        | none ↦ (over, err ClientError.timed_out)
        | some r ↦ elim r [
          | err e ↦ (over, err e)
          | ok wp ↦ (welcomed host_peer_id group_id wp over, ok tt)
        ]
      ]
    ]

unfoldable pub leave_group : String → Client → Client × Result ClientError Unit
leave_group group_id c = elim (lookup group_id c.conns) [
  | none ↦ (c, err ClientError.not_connected)
  | some cc ↦ (does (Action.event "leave" group_id "") (drop_conn group_id cc c), ok tt)
]

unfoldable pub updated_meta : ClientConn → String → Bool → MetaPayload → Client → Client
updated_meta cc group_id volatile mp c =
    let row : Subscription = record {
      host_peer_id = cc.host_peer_id;
      group_id = group_id;
      group_name = mp.group_name;
      group_type = mp.group_type;
      max_members = mp.max_members;
      volatile = volatile;
    } in
    if mp.group_name == ""
    then c
    else record c { subscriptions = add_subscription row c.subscriptions }

-- OnClose of the handler of the connection's type, if there is one.
unfoldable pub tell_close : String → String → Client → Client
tell_close group_type group_id c = elim (lookup group_type c.handlers) [
  | none ↦ c
  | some _ ↦ does (Action.on_close group_id) c
]

unfoldable pub handle_member_message : String → ClientConn → String → Incoming → Client → Client
handle_member_message from cc group_id (Incoming.members none raw) c =
    does (Action.event "members" group_id from) c
handle_member_message from cc group_id (Incoming.members (some ms) raw) c =
    let conn = record cc { members = ms } in
    does (Action.event "members" group_id from) (
      store_members (not (is_volatile_type c.handlers cc.group_type)) group_id ms
        (record c { conns = insert group_id conn c.conns }))
handle_member_message from cc group_id Incoming.close c = tell_close cc.group_type group_id (
    does (Action.event "close" group_id "") (record c {
      conns = erase group_id c.conns;
      subscriptions = remove_subscription cc.host_peer_id group_id c.subscriptions;
    }))
handle_member_message from cc group_id Incoming.ping c = does (Action.sent from group_id "pong") c
handle_member_message from cc group_id (Incoming.meta none raw) c =
    does (Action.event "meta" group_id "") c
handle_member_message from cc group_id (Incoming.meta (some mp) raw) c =
    does (Action.event "meta" group_id "")
      (updated_meta cc group_id (is_volatile_type c.handlers cc.group_type) mp c)
handle_member_message from cc group_id (Incoming.error raw) c =
    does (Action.event "error" group_id from) c
handle_member_message from cc group_id (Incoming.payload kind raw) c =
    does (Action.event kind group_id from) c
handle_member_message from cc group_id (Incoming.welcome wp) c = c

-- A message that no pending join takes goes to the connection, if there is one.
unfoldable pub to_member : String → String → Incoming → Client → Client
to_member from group_id msg c = elim (lookup group_id c.conns) [
  | none ↦ c
  | some cc ↦ handle_member_message from cc group_id msg c
]

unfoldable pub offer_result : String → Result ClientError WelcomePayload → Client → Client
offer_result group_id r c = elim (lookup group_id c.pending) [
  | none ↦ c
  | some slot ↦ record c { pending = insert group_id (fill r slot) c.pending }
]

unfoldable pub is_pending : String → Client → Bool
is_pending group_id c = elim (lookup group_id c.pending) [ none ↦ false | some _ ↦ true ]

unfoldable pub reason : String → String
reason text = if text == "" then "join rejected by host" else text

-- The field `message` of an ErrorPayload.
unfoldable pub error_text : Value → String
error_text raw = elim (as_object raw) [ none ↦ "" | some fs ↦ as_text (get "message" fs) ]

-- handleMQMessage for a group that this node does not host.
unfoldable pub handle_mq_message : String → String → Incoming → Client → Client
handle_mq_message from group_id (Incoming.welcome wp) c =
    if is_pending group_id c
    then elim wp [ none ↦ c | some w ↦ offer_result group_id (ok w) c ]
    else to_member from group_id (Incoming.welcome wp) c
handle_mq_message from group_id (Incoming.error raw) c =
    if is_pending group_id c
    then offer_result group_id (err (ClientError.rejected (reason (error_text raw)))) c
    else to_member from group_id (Incoming.error raw) c
handle_mq_message from group_id (Incoming.members ms raw) c =
    to_member from group_id (Incoming.members ms raw) c
handle_mq_message from group_id Incoming.close c = to_member from group_id Incoming.close c
handle_mq_message from group_id Incoming.ping c = to_member from group_id Incoming.ping c
handle_mq_message from group_id (Incoming.meta mp raw) c =
    to_member from group_id (Incoming.meta mp raw) c
handle_mq_message from group_id (Incoming.payload kind raw) c =
    to_member from group_id (Incoming.payload kind raw) c
