-- ===== src/Mq/Exchange.antt =====
-- internal/mq/manager.go: sendOnce of one node against handleIncoming of another.
use goop.Base.{
  true, false, String, Option, none, some, ◌≡◌, refl, Option-cases, inl, inr, ◌==◌, eq_iff, ok, leb,
}
use Prim.Native.String.{len}
use goop.Base.Int.{incr}
use goop.Base.Json.{Value, Fields}
use goop.Mq.{
  Manager, MqAck, MqEncryptor, Plaintext, decrypt, envelope, handle_incoming, dispatch, ack_for,
  is_loggable,
}
use goop.Mq.Sending.{Link, Answer, encrypt, message_of, send_once, after_answer}

unfoldable pub answer_of : Option MqAck → Answer
answer_of none = Answer.no_answer
answer_of (some ack) = Answer.acked ack

-- A link to the node `b`, which knows the sender as `self`.
unfoldable pub link_to : Manager → String → String → Link
link_to b self via = record {
  decodes = true;
  dials = true;
  via = via;
  answer = λ msg. answer_of (handle_incoming self via (some msg) b).1;
}

unfoldable pub seal_for : Option MqEncryptor → String → Value → Option String
seal_for none peer_id payload = none
seal_for (some enc) peer_id payload = enc.seal peer_id payload

unfoldable pub unseal_from : Option MqEncryptor → String → String → Option Plaintext
unseal_from none peer_id sealed = none
unseal_from (some enc) peer_id sealed = enc.unseal peer_id sealed

-- What the one seals for the other, the other opens.
pub record IsPaired (ea : Option MqEncryptor) (eb : Option MqEncryptor) (self peer_id : String)
    : Type 0 where
  pub opens :
      (payload : Value) (sealed : String)
      → seal_for ea peer_id payload ≡ some sealed
      → unseal_from eb self sealed ≡ some (Plaintext.json payload)

encrypt-seal_for :
    (ea : Option MqEncryptor) (peer_id : String) (payload : Value)
    → encrypt ea peer_id payload ≡ elim (seal_for ea peer_id payload) [
      | none ↦ (payload, false)
      | some sealed ↦ (Value.object (Fields.field "enc" (Value.string sealed) Fields.end), true)
    ]
unfolding encrypt seal_for
encrypt-seal_for none peer_id payload = refl
encrypt-seal_for (some enc) peer_id payload = refl

decrypt_sealed :
    (eb : Option MqEncryptor) (self sealed : String) (payload : Value)
    → unseal_from eb self sealed ≡ some (Plaintext.json payload)
    → decrypt eb self (Value.object (Fields.field "enc" (Value.string sealed) Fields.end))
      ≡ (payload, true)
unfolding decrypt unseal_from envelope
decrypt_sealed none self sealed payload e = cc
decrypt_sealed (some enc) self sealed payload e = rw (e, decrypt) refl

decrypt_plain :
    (eb : Option MqEncryptor) (self : String) (payload : Value)
    → envelope payload ≡ none
    → decrypt eb self payload ≡ (payload, false)
unfolding decrypt
decrypt_plain none self payload e = refl
decrypt_plain (some enc) self payload e = rw (e, decrypt) refl

-- Decryption undoes encryption.
decrypt-encrypt :
    (ea eb : Option MqEncryptor) (self peer_id : String) (payload : Value)
    → IsPaired ea eb self peer_id
    → envelope payload ≡ none
    → decrypt eb self (encrypt ea peer_id payload).0 ≡ (payload, (encrypt ea peer_id payload).1)
decrypt-encrypt ea eb self peer_id payload paired plain =
    elim (Option-cases (seal_for ea peer_id payload)) [
      | inl keyless ↦
          rw (encrypt-seal_for ea peer_id payload, keyless) (decrypt_plain eb self payload plain)
      | inr (sealed, with_key) ↦
          rw (encrypt-seal_for ea peer_id payload, with_key)
            (decrypt_sealed eb self sealed payload (paired.opens payload sealed with_key))
    ]

-- Between nodes whose encryption fits together, with an id of at least 8 bytes, as a uuid has, and with a
-- payload that is not itself an envelope, sendOnce succeeds in its one attempt, and the other node dispatches the message with the payload as
-- it was before the encryption, marked as encrypted just when it was.
pub send_once-handle_incoming :
    (a b : Manager) (self peer_id via id topic : String) (payload : Value)
    → IsPaired a.enc b.enc self peer_id
    → envelope payload ≡ none
    → leb 8 (len id) ≡ true
    → (let msg = message_of a.enc peer_id id (incr a.seq) topic payload in
        ((send_once (link_to b self via) id peer_id topic payload a).1 ≡ ok id)
        × ((handle_incoming self via (some msg) b).0
            ≡ some (
                dispatch self
                  (record msg { payload = payload })
                  via
                  (encrypt a.enc peer_id payload).1
                  b)))
unfolding send_once link_to handle_incoming answer_of ack_for message_of after_answer is_loggable
send_once-handle_incoming a b self peer_id via id topic payload paired plain long =
    let same : id == id ≡ true = (eq_iff id id).1 refl in
    let back = decrypt-encrypt a.enc b.enc self peer_id payload paired plain in
    (rw (same, send_once) refl, rw (back, handle_incoming, long) refl)
