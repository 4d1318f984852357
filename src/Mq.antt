-- ===== src/Mq.antt =====
-- internal/mq: the message queue of a node (manager.go, with protocol.go and the topics of topics.go).
-- A goroutine that a method starts is a task, which a later step runs.
pub mod Steps
pub mod Counts
pub mod Held
pub mod Delivery
pub mod Channels
pub mod Inbox
pub mod Replay
pub mod Subscribers
pub mod Sending
pub mod Attempts
pub mod Exchange
use Prim.Native.String.{len}
use text.Mathlib.Text.{starts_with}
use goop.Base.{
  ℕ, suc, ◌+◌, Bool, true, false, ◌&&◌, ◌||◌, not, String, List, [], ◌∷◌, ◌++◌, Option, none, some,
  if◌then◌else◌, ◌==◌, ltb, leb, eqb,
}
use goop.Base.Int.{ℤ, pos, incr}
use goop.Base.Lists.{length, get_elem?, set, drop}
use goop.Base.Map.{Map, lookup, insert}
use goop.Base.Json.{Value, Fields, get, as_text, as_object}

abbrev pub inbox_cap : ℕ
inbox_cap = 200

abbrev pub listener_cap : ℕ
listener_cap = 256

abbrev pub topic_group_prefix : String
topic_group_prefix = "group:"

abbrev pub topic_group_invite : String
topic_group_invite = "group.invite"

abbrev pub topic_chat_room_prefix : String
topic_chat_room_prefix = "chat.room:"

abbrev pub topic_identity : String
topic_identity = "identity"

abbrev pub topic_identity_response : String
topic_identity_response = "identity.response"

abbrev pub topic_log_mq : String
topic_log_mq = "log:mq"

pub record MqMsg : Type 0 where
  pub msg_type : String
  pub id : String
  pub seq : ℤ
  pub topic : String
  pub payload : Value

pub record MqAck : Type 0 where
  pub msg_type : String
  pub id : String
  pub seq : ℤ

pub data MqEvent : Type 0 where
  message : MqMsg → String → MqEvent
  delivered : String → MqEvent

pub record InboxEntry : Type 0 where
  pub msg : MqMsg
  pub from : String

-- What a sealed text holds: the JSON of a value, or bytes that are none.
pub data Plaintext : Type 0 where
  json : Value → Plaintext
  bytes : Plaintext

-- An implementation of MQEncryptor, with `none` for its errors. Both name the other peer.
pub record MqEncryptor : Type 0 where
  pub seal : String → Value → Option String
  pub unseal : String → String → Option Plaintext

-- A callback is known by its number.
pub record TopicSub : Type 0 where
  pub prefix : String
  pub fn : ℕ

-- A channel of Subscribe, with the events that wait in its buffer.
pub record Listener : Type 0 where
  pub channel : ℕ
  pub waiting : List MqEvent

-- What a `go` statement starts: a callback, or an entry of the log.
pub data Task : Type 0 where
  calls : TopicSub → String → String → Value → Task
  logs : String → String → String → String → String → Bool → Task

pub record ToReplay : Type 0 where
  pub channel : ℕ
  pub entry : InboxEntry

-- A channel that was cancelled is in `closed`: what its buffer holds can still be read.
-- `opened` counts the channels made so far, and `buffering` has the entries that a handler, after it
-- released the lock of the listeners, is about to put in the inbox; `replaying` has those that a
-- Subscribe took out of the inbox and is about to put in its channel.
pub record Manager : Type 0 where
  pub seq : ℤ
  pub inbox : Map (List InboxEntry)
  pub pending : List String
  pub opened : ℕ
  pub listeners : List Listener
  pub closed : List Listener
  pub topic_subs : List TopicSub
  pub enc : Option MqEncryptor
  pub buffering : List InboxEntry
  pub replaying : List ToReplay
  pub tasks : List Task

abbrev pub new : Manager
new = record {
  seq = pos 0;
  inbox = [];
  pending = [];
  opened = 0;
  listeners = [];
  closed = [];
  topic_subs = [];
  enc = none;
  buffering = [];
  replaying = [];
  tasks = [];
}

unfoldable pub start : Task → Manager → Manager
start t m = record m { tasks = m.tasks ++ t ∷ [] }

-- `select { case ch <- evt: default: }`
unfoldable pub offer : MqEvent → Listener → Listener
offer e l =
    if ltb (length l.waiting) listener_cap then record l { waiting = l.waiting ++ e ∷ [] } else l

unfoldable pub offer_each : MqEvent → List Listener → List Listener
offer_each e [] = []
offer_each e (l ∷ ls) = offer e l ∷ offer_each e ls

-- Whether a send finds a channel full.
unfoldable pub any_dropped : List Listener → Bool
any_dropped [] = false
any_dropped (l ∷ ls) = not (ltb (length l.waiting) listener_cap) || any_dropped ls

unfoldable pub notify_delivered : String → Manager → Manager
notify_delivered id m = record m { listeners = offer_each (MqEvent.delivered id) m.listeners }

-- `id` is the message's fresh uuid.
unfoldable pub publish_local : String → String → String → Value → Manager → Manager
publish_local id topic from payload m =
    let seq = incr m.seq in
    let msg : MqMsg = record {
      msg_type = "msg";
      id = id;
      seq = seq;
      topic = topic;
      payload = payload;
    } in
    record m { seq = seq; listeners = offer_each (MqEvent.message msg from) m.listeners }

-- A field that the entry of the log has only where `present`.
unfoldable pub optional : Bool → String → Value → Fields → Fields
optional present key v rest = if present then Fields.field key v rest else rest

unfoldable pub log_entry : Value → String → String → String → String → String → Bool → Fields
log_entry ts dir topic peer_id err_msg via encrypted = Fields.field "dir" (Value.string dir) (
    Fields.field "topic" (Value.string topic) (
      Fields.field "peer" (Value.string peer_id) (
        Fields.field "ts" ts (
          optional (not (err_msg == "")) "error" (Value.string err_msg) (
            optional (not (via == "")) "via" (Value.string via)
              (optional encrypted "encrypted" (Value.boolean true) Fields.end))))))

unfoldable pub is_unlogged : String → Bool
is_unlogged topic = starts_with topic "log:" || topic == "mq.ack"

-- `id` and `ts` are the uuid and the time of the entry.
unfoldable pub log_mq_event :
    String → Value → String → String → String → String → String → Bool → Manager → Manager
log_mq_event id ts dir topic peer_id err_msg via encrypted m =
    if is_unlogged topic
    then m
    else publish_local id topic_log_mq ""
        (Value.object (log_entry ts dir topic peer_id err_msg via encrypted)) m

-- The sealed text of an envelope `{"enc": …}`.
unfoldable pub envelope : Value → Option String
envelope (Value.object (Fields.field key (Value.string sealed) Fields.end)) =
    if key == "enc" then some sealed else none
envelope _ = none

-- The payload of a message from `remote` after decryption, and whether it was encrypted.
unfoldable pub decrypt : Option MqEncryptor → String → Value → Value × Bool
decrypt none remote payload = (payload, false)
decrypt (some enc) remote payload = elim (envelope payload) [
  | none ↦ (payload, false)
  | some sealed ↦ elim (enc.unseal remote sealed) [
    | none ↦ (payload, false)
    | some plain ↦ elim plain [ Plaintext.json v ↦ (v, true) | Plaintext.bytes ↦ (payload, false) ]
  ]
]

-- The loop over topicSubs.
unfoldable pub calls_of : String → String → Value → List TopicSub → List Task
calls_of remote topic payload [] = []
calls_of remote topic payload (sub ∷ subs) =
    let rest = calls_of remote topic payload subs in
    if starts_with topic sub.prefix then Task.calls sub remote topic payload ∷ rest else rest

-- The topics whose subscribers publish them again themselves.
unfoldable pub is_suppressed : String → Bool
is_suppressed topic =
    topic == topic_group_invite
    || starts_with topic topic_group_prefix
    || starts_with topic topic_chat_room_prefix
    || topic == topic_identity
    || topic == topic_identity_response

-- Offers a message to every listener. Where there is none, or one was full, the handler goes on to
-- buffer it.
unfoldable pub deliver : String → MqMsg → Manager → Manager
deliver remote msg m =
    let offered = record m { listeners = offer_each (MqEvent.message msg remote) m.listeners } in
    let entry : InboxEntry = record { msg = msg; from = remote } in
    if eqb (length m.listeners) 0 || any_dropped m.listeners
    then record offered { buffering = m.buffering ++ entry ∷ [] }
    else offered

-- A remote browser has shown one of our messages.
unfoldable pub confirm : Value → Manager → Manager
confirm payload m = elim (as_object payload) [
  | none ↦ m
  | some fs ↦
      let orig_id = as_text (get "msg_id" fs) in
      if orig_id == "" then m else notify_delivered orig_id m
]

-- handleIncoming after the decryption. `via` is how the stream is routed.
unfoldable pub dispatch : String → MqMsg → String → Bool → Manager → Manager
dispatch remote msg via encrypted m =
    let called = record m {
      tasks = m.tasks ++ calls_of remote msg.topic msg.payload m.topic_subs;
    } in
    let log = Task.logs "recv" msg.topic remote "" via encrypted in
    if msg.topic == "mq.ack"
    then confirm msg.payload m
    else if is_suppressed msg.topic
    then start log called
    else start log (deliver remote msg called)

unfoldable pub ack_for : MqMsg → MqAck
ack_for msg = record { msg_type = "ack"; id = msg.id; seq = msg.seq }

-- `msg.ID[:8]` in the line of the log: a shorter id panics.
unfoldable pub is_loggable : MqMsg → Bool
is_loggable msg = leb 8 (len msg.id)

-- A message of `none` is a stream whose message cannot be decoded. The result has the transport ACK,
-- which is sent before the panic, and no manager where the handler panics. The ids of peers have at
-- least 8 bytes.
unfoldable pub handle_incoming :
    String → String → Option MqMsg → Manager → Option Manager × Option MqAck
handle_incoming remote via none m = (some m, none)
handle_incoming remote via (some msg) m =
    let (payload, encrypted) = decrypt m.enc remote msg.payload in
    let after = dispatch remote (record msg { payload = payload }) via encrypted m in
    (if is_loggable msg then some after else none, some (ack_for msg))

unfoldable pub entries_of : Option (List InboxEntry) → List InboxEntry
entries_of none = []
entries_of (some es) = es

-- A full buffer loses its oldest entry.
unfoldable pub keep_newest : List InboxEntry → List InboxEntry
keep_newest buf = if leb inbox_cap (length buf) then drop 1 buf else buf

unfoldable pub buffer : InboxEntry → Manager → Manager
buffer entry m =
    let buf = entries_of (lookup entry.from m.inbox) in
    record m { inbox = insert entry.from (keep_newest buf ++ entry ∷ []) m.inbox }

unfoldable pub all_buffered : Map (List InboxEntry) → List InboxEntry
all_buffered [] = []
all_buffered ((_, entries) ∷ m) = entries ++ all_buffered m

unfoldable pub replay : List InboxEntry → Listener → Listener
replay [] l = l
replay (e ∷ es) l = replay es (offer (MqEvent.message e.msg e.from) l)

-- Subscribe makes its channel and registers it, then it takes the inbox, then it replays what it took.
unfoldable pub register : Manager → Manager
register m = record m {
  opened = suc m.opened;
  listeners = m.listeners ++ record { channel = m.opened; waiting = [] } ∷ [];
}

unfoldable pub replay_to : ℕ → List InboxEntry → List Listener → List Listener
replay_to ch es [] = []
replay_to ch es (l ∷ ls) = (if eqb l.channel ch then replay es l else l) ∷ replay_to ch es ls

unfoldable pub replays_of : ℕ → List InboxEntry → List ToReplay
replays_of ch [] = []
replays_of ch (e ∷ es) = record { channel = ch; entry = e } ∷ replays_of ch es

unfoldable pub take_inbox : ℕ → Manager → Manager
take_inbox ch m = record m {
  inbox = [];
  replaying = m.replaying ++ replays_of ch (all_buffered m.inbox);
}

-- The entries for the channel `ch`: the first one, and the list without it.
unfoldable pub first_replay : ℕ → List ToReplay → List InboxEntry
first_replay ch [] = []
first_replay ch (r ∷ rs) =
    let rest = first_replay ch rs in if eqb r.channel ch then r.entry ∷ [] else rest

unfoldable pub later_replays : ℕ → List ToReplay → List ToReplay
later_replays ch [] = []
later_replays ch (r ∷ rs) =
    let rest = later_replays ch rs in if eqb r.channel ch then rs else r ∷ rest

-- One turn of the loop over what was taken.
unfoldable pub replay_next : ℕ → Manager → Manager
replay_next ch m = record m {
  replaying = later_replays ch m.replaying;
  listeners = replay_to ch (first_replay ch m.replaying) m.listeners;
}

-- The inbox is taken and replayed, with no other goroutine between.
unfoldable pub drain : ℕ → Manager → Manager
drain ch m = record m { inbox = []; listeners = replay_to ch (all_buffered m.inbox) m.listeners }

unfoldable pub subscribe : Manager → Manager
subscribe m = drain m.opened (register m)

unfoldable pub without : ℕ → List Listener → List Listener
without ch [] = []
without ch (l ∷ ls) = let rest = without ch ls in if eqb l.channel ch then rest else l ∷ rest

unfoldable pub only : ℕ → List Listener → List Listener
only ch [] = []
only ch (l ∷ ls) = let rest = only ch ls in if eqb l.channel ch then l ∷ rest else rest

-- The cancel function of Subscribe.
unfoldable pub cancel : ℕ → Manager → Manager
cancel ch m = record m {
  listeners = without ch m.listeners;
  closed = m.closed ++ only ch m.listeners;
}
