-- ===== src/Mq/Attempts.antt =====
-- internal/mq/manager.go: what Send leaves behind, and what its success means.
use goop.Base.{
  Bool, true, false, String, ◌≡◌, ◌⊎◌, refl, Bool-cases, inl, inr, ◌==◌, eq_iff, sym, Result, ok,
  err, err_is_no_ok,
}
use goop.Base.Int.{incr}
use goop.Base.Json.{Value}
use goop.Mq.{Manager, MqAck}
use goop.Mq.Sending.{
  Link, Answer, SendError, message_of, send_once, send, after_answer, after_first,
}

-- The other side acknowledged the message with this id.
pub record IsConfirmed (link : Link) (id peer_id topic : String) (payload : Value) (m : Manager)
    : Type 0 where
  pub connected : (link.decodes ≡ true) × (link.dials ≡ true)
  pub ack : MqAck
  pub answered :
      link.answer (message_of m.enc peer_id id (incr m.seq) topic payload) ≡ Answer.acked ack
  pub matches : ack.id ≡ id

Answer-cases :
    (answer : Answer)
    → (answer ≡ Answer.not_written)
      ⊎ (answer ≡ Answer.no_answer)
      ⊎ ((ack : MqAck) × (answer ≡ Answer.acked ack))
Answer-cases Answer.not_written = inl refl
Answer-cases Answer.no_answer = inr (inl refl)
Answer-cases (Answer.acked ack) = inr (inr (ack, refl))

abbrev ok_of : String → Result SendError String
ok_of x = ok x

ok_inj : (x y : String) → ok x ≡ ok_of y → x ≡ y
ok_inj x y h = cc

after_answer_acked :
    (done sent : Manager) (id x : String) (answer : Answer)
    → (after_answer done sent id answer).1 ≡ ok x
    → (x ≡ id) × ((ack : MqAck) × (answer ≡ Answer.acked ack) × (ack.id ≡ id))
unfolding after_answer
after_answer_acked done sent id x Answer.not_written h = err_is_no_ok _ x h
after_answer_acked done sent id x Answer.no_answer h = err_is_no_ok _ x h
after_answer_acked done sent id x (Answer.acked ack) h = elim (Bool-cases (ack.id == id)) [
  | inl same ↦ (sym (ok_inj id x (rw same at h)), (ack, refl, (eq_iff ack.id id).0 same))
  | inr other ↦ err_is_no_ok _ x (rw other at h)
]

-- An attempt succeeds only with its own id, acknowledged.
send_once-IsConfirmed :
    (link : Link) (id peer_id topic : String) (payload : Value) (m : Manager) (x : String)
    → (send_once link id peer_id topic payload m).1 ≡ ok x
    → (x ≡ id) × IsConfirmed link id peer_id topic payload m
unfolding send_once
send_once-IsConfirmed link id peer_id topic payload m x h = elim (Bool-cases link.decodes) [
  | inr no_peer ↦ err_is_no_ok _ x (rw no_peer at h)
  | inl peer ↦ elim (Bool-cases link.dials) [
    | inr unreachable ↦ err_is_no_ok _ x (rw (peer, unreachable) at h)
    | inl dialled ↦
        let (same, (ack, answered, matches)) =
          after_answer_acked _ _ id x _ (rw (peer, dialled) at h) in
        (
          same,
          record { connected = (peer, dialled); ack = ack; answered = answered; matches = matches },
        )
  ]
]

after_first_ok :
    (cancelled : Bool) (m : Manager) (second : Manager × Result SendError String)
    (first : Result SendError String) (x : String)
    → (after_first cancelled m second first).1 ≡ ok x
    → (first ≡ ok x) ⊎ ((cancelled ≡ false) × (second.1 ≡ ok x))
unfolding after_first
after_first_ok cancelled m second (ok id) x h = inl h
after_first_ok true m second (err e) x h = err_is_no_ok _ x h
after_first_ok false m second (err e) x h = inr (refl, h)

-- Send reports success only with the id of a message that the other side acknowledged by this id: that
-- of the first attempt, or, where the first one failed and the caller did not give up, the second.
pub send-IsConfirmed :
    (link₁ link₂ : Link) (id₁ id₂ : String) (cancelled : Bool) (peer_id topic : String)
    (payload : Value) (m : Manager) (x : String)
    → (send (link₁, id₁) (link₂, id₂) cancelled peer_id topic payload m).1 ≡ ok x
    → ((x ≡ id₁) × IsConfirmed link₁ id₁ peer_id topic payload m)
      ⊎ ((x ≡ id₂)
          × (cancelled ≡ false)
          × IsConfirmed link₂ id₂ peer_id topic payload
              (send_once link₁ id₁ peer_id topic payload m).0)
unfolding send
send-IsConfirmed link₁ link₂ id₁ id₂ cancelled peer_id topic payload m x h =
    elim (after_first_ok cancelled _ _ _ x h) [
      | inl first ↦ inl (send_once-IsConfirmed link₁ id₁ peer_id topic payload m x first)
      | inr (goes_on, second) ↦
          let (same, confirmed) =
            send_once-IsConfirmed link₂ id₂ peer_id topic payload _ x second in
          inr (same, goes_on, confirmed)
    ]
