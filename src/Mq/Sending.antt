-- ===== src/Mq/Sending.antt =====
-- internal/mq/manager.go: Send with its second attempt, sendOnce, and the way of a message to the
-- handler of the other node.
use goop.Base.{
  Bool, true, false, not, String, List, [], ◌∷◌, Option, none, some, if◌then◌else◌, ◌==◌, Result,
  ok, err,
}
use goop.Base.Int.{ℤ, incr}
use goop.Base.Json.{Value, Fields}
use goop.Mq.{Manager, MqMsg, MqAck, MqEncryptor, Task, start}

pub data SendError : Type 0 where
  invalid_peer_id : SendError
  open_stream : SendError
  encode_msg : SendError
  waiting_for_ack : SendError
  ack_mismatch : SendError

-- What the other side of a stream makes of a message.
pub data Answer : Type 0 where
  not_written : Answer
  no_answer : Answer
  acked : MqAck → Answer

-- What libp2p and the other node do in one attempt: whether the text is a peer's id, whether a stream
-- opens, how it is routed, and what comes back on it.
pub record Link : Type 0 where
  pub decodes : Bool
  pub dials : Bool
  pub via : String
  pub answer : MqMsg → Answer

-- The payload on the wire, and whether it is sealed. Without a key it stays as it is.
unfoldable pub encrypt : Option MqEncryptor → String → Value → Value × Bool
encrypt none peer_id payload = (payload, false)
encrypt (some enc) peer_id payload = elim (enc.seal peer_id payload) [
  | none ↦ (payload, false)
  | some sealed ↦ (Value.object (Fields.field "enc" (Value.string sealed) Fields.end), true)
]

-- `delete(m.pending, msgID)`
unfoldable pub delete : String → List String → List String
delete id [] = []
delete id (j ∷ ids) = let rest = delete id ids in if j == id then rest else j ∷ rest

-- The message of the `seq`th call, with the uuid `id`.
unfoldable pub message_of : Option MqEncryptor → String → String → ℤ → String → Value → MqMsg
message_of enc peer_id id seq topic payload = record {
  msg_type = "msg";
  id = id;
  seq = seq;
  topic = topic;
  payload = (encrypt enc peer_id payload).0;
}

-- The end of sendOnce: `sent` is the state after a success, `done` after a failure.
unfoldable pub after_answer :
    Manager → Manager → String → Answer → Manager × Result SendError String
after_answer done sent id Answer.not_written = (done, err SendError.encode_msg)
after_answer done sent id Answer.no_answer = (done, err SendError.waiting_for_ack)
after_answer done sent id (Answer.acked ack) =
    if ack.id == id then (sent, ok id) else (done, err SendError.ack_mismatch)

unfoldable pub send_once :
    Link → String → String → String → Value → Manager → Manager × Result SendError String
send_once link id peer_id topic payload m =
    let registered = record m { seq = incr m.seq; pending = id ∷ m.pending } in
    let done = record registered { pending = delete id registered.pending } in
    let msg = message_of m.enc peer_id id registered.seq topic payload in
    let sealed = (encrypt m.enc peer_id payload).1 in
    let lost = start (Task.logs "error" topic peer_id "unreachable" "" false) done in
    let sent = start (Task.logs "send" topic peer_id "" link.via sealed) done in
    if not link.decodes
    then (m, err SendError.invalid_peer_id)
    else if not link.dials
    then (lost, err SendError.open_stream)
    else after_answer done sent id (link.answer msg)

-- What Send does with the result of its first attempt, which left the state `m`. `cancelled` says
-- whether the caller's context ends in the pause before the second one.
unfoldable pub after_first :
    Bool
    → Manager
    → Manager × Result SendError String
    → Result SendError String
    → Manager × Result SendError String
after_first cancelled m second (ok id) = (m, ok id)
after_first cancelled m second (err e) = if cancelled then (m, err e) else second

-- The two links and uuids are those of the two attempts.
unfoldable pub send :
    Link × String
    → Link × String
    → Bool
    → String
    → String
    → Value
    → Manager
    → Manager × Result SendError String
send (link₁, id₁) (link₂, id₂) cancelled peer_id topic payload m =
    let (m₁, first) = send_once link₁ id₁ peer_id topic payload m in
    after_first cancelled m₁ (send_once link₂ id₂ peer_id topic payload m₁) first
