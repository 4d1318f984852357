-- ===== src/Tests/MessageQueue.antt =====
-- internal/mq, the message queue, on concrete inputs.
use mathlib.Core.Option.{some_inj}
use goop.Base.{
  ap, sym, ◌≡◌, ◌≤◌, ◌+◌, ◌⊎◌, refl, true, false, Bool, String, List, [], ◌∷◌, ◌++◌, some, none,
  arith, map, ok,
}
use goop.Base.Int.{pos, incr}
use goop.Base.Lists.{take}
use goop.Base.Json.{Value}
use goop.Mq.{
  Manager, new, MqMsg, MqEncryptor, Plaintext, TopicSub, subscribe, handle_incoming, dispatch,
  all_buffered, listener_cap, any_dropped, buffer, calls_of, cancel, confirm, decrypt, deliver,
  drain, take_inbox, replays_of, replay_next, first_replay, later_replays, is_loggable, entries_of,
  envelope, is_suppressed, is_unlogged, keep_newest, log_entry, log_mq_event, offer, offer_each,
  only, optional, publish_local, register, replay, replay_to, start, without,
}
use goop.Mq.Steps.{
  World, Op, act, after_handler, has_log_id, is_read, run, IsRoomy, buffer_at, first_of, fits,
  has_room, has_space, left, read, remove_at, rest_of, run_at, run_task, step, taken,
}
use goop.Mq.Delivery.{arrivals, held-run, arriving}
use goop.Mq.Held.{held, as_read, passed_on}
use goop.Mq.Inbox.{IsBounded, run-IsBounded}
use goop.Mq.Replay.{to_event, subscribe_replays}
use goop.Mq.Subscribers.{subscribe_topic, unsubscribe, unsubscribe_two}
use goop.Mq.Sending.{Link, Answer, encrypt, message_of, send_once, send, after_answer, after_first}
use goop.Mq.Attempts.{IsConfirmed, send-IsConfirmed}
use goop.Mq.Exchange.{IsPaired, link_to, send_once-handle_incoming, seal_for, unseal_from}
use goop.Mq.Counts.{hit}
use goop.Mq.Channels.{AllFit}
use goop.Base.Map.{insert, lookup}

abbrev letter : String → String → MqMsg
letter id topic = record {
  msg_type = "msg";
  id = id;
  seq = pos 1;
  topic = topic;
  payload = Value.string "hello";
}

abbrev idle : World
idle = record { manager = new; shown = []; called = []; crashed = false }

-- A message comes before the browser does, and another one while Subscribe is between its locks. The
-- browser reads both and the entry of the log before it leaves.
abbrev morning : List Op
morning =
    Op.receives "a" "direct" (some (letter "message1" "chat"))
    ∷ Op.buffers 0
    ∷ Op.registers
    ∷ Op.receives "b" "relay" (some (letter "message2" "chat"))
    ∷ Op.drains 0
    ∷ Op.runs 0 "u1" (Value.string "now")
    ∷ Op.replays 0
    ∷ Op.reads 0
    ∷ Op.reads 0
    ∷ Op.reads 0
    ∷ Op.cancels 0
    ∷ []

any_message : MqMsg → String → Bool
any_message msg from = true

morning-IsRoomy : IsRoomy idle morning
unfolding IsRoomy arrivals arriving as_read passed_on decrypt is_suppressed hit step act
    after_handler is_loggable has_log_id is_read take_inbox replays_of replay_next first_replay
    later_replays run has_room fits has_space handle_incoming dispatch start calls_of deliver
    offer_each any_dropped buffer_at buffer entries_of lookup insert keep_newest remove_at register
    drain all_buffered replay_to replay offer cancel without only read taken left first_of rest_of
    run_at run_task log_mq_event is_unlogged publish_local incr optional log_entry any_message
    confirm
morning-IsRoomy =
    (refl, (refl, (refl, (refl, (refl, (refl, (refl, (refl, (refl, (refl, (refl, tt)))))))))))

held-run_example :
    ((run idle morning).crashed ≡ false)
    × (held any_message idle + arrivals any_message idle morning
        ≤ held any_message (run idle morning))
held-run_example = held-run any_message idle morning refl morning-IsRoomy

arrivals_two : arrivals any_message idle morning ≡ 2
unfolding IsRoomy arrivals arriving as_read passed_on decrypt is_suppressed hit step act
    after_handler is_loggable has_log_id is_read take_inbox replays_of replay_next first_replay
    later_replays run has_room fits has_space handle_incoming dispatch start calls_of deliver
    offer_each any_dropped buffer_at buffer entries_of lookup insert keep_newest remove_at register
    drain all_buffered replay_to replay offer cancel without only read taken left first_of rest_of
    run_at run_task log_mq_event is_unlogged publish_local incr optional log_entry any_message
    confirm
arrivals_two = refl

idle-IsBounded : IsBounded new
unfolding AllFit
idle-IsBounded = record { inboxes = tt; open_channels = tt; closed_channels = tt }

run-IsBounded_example : IsBounded (run idle morning).manager
run-IsBounded_example = run-IsBounded idle morning idle-IsBounded

-- Two messages of "a" and one of "b", before any browser.
abbrev filled : Manager
filled = record new {
  inbox =
      (
        "a",
        record { msg = letter "message1" "chat"; from = "a" }
            ∷ record { msg = letter "message2" "chat"; from = "a" }
            ∷ [],
      )
      ∷ ("b", record { msg = letter "message3" "chat"; from = "b" } ∷ [])
      ∷ [];
}

filled-IsBounded : IsBounded filled
unfolding AllFit
filled-IsBounded = record {
  inboxes = (omega arith, (omega arith, tt));
  open_channels = tt;
  closed_channels = tt;
}

subscribe_replays_example :
    ((subscribe filled).inbox ≡ [])
    × ((subscribe filled).listeners
        ≡ []
          ++ record {
            channel = 0;
            waiting = map to_event (take listener_cap (all_buffered filled.inbox));
          }
            ∷ [])
subscribe_replays_example = subscribe_replays filled filled-IsBounded

abbrev calls_sub : TopicSub
calls_sub = record { prefix = "call:"; fn = 1 }

abbrev groups_sub : TopicSub
groups_sub = record { prefix = "group:"; fn = 2 }

unsubscribe_two_example :
    (unsubscribe 0 (unsubscribe 1 (subscribe_topic groups_sub (subscribe_topic calls_sub new).0).0)
      ≡ new)
    × ((unsubscribe 1 (
          unsubscribe 0
            (subscribe_topic groups_sub (subscribe_topic calls_sub new).0).0)).topic_subs
        ≡ [] ++ groups_sub ∷ [])
    × (unsubscribe 0
          (unsubscribe 0 (subscribe_topic groups_sub (subscribe_topic calls_sub new).0).0)
        ≡ new)
unfolding subscribe_topic
unsubscribe_two_example = unsubscribe_two new calls_sub groups_sub

-- The payload itself serves as the sealed text.
abbrev toy : MqEncryptor
toy = record {
  seal = λ peer payload. elim payload [ Value.string s ↦ some s | _ ↦ none ];
  unseal = λ peer sealed. some (Plaintext.json (Value.string sealed));
}

abbrev sealing : Manager
sealing = record new { enc = some toy }

sealed_back :
    (payload : Value) (sealed : String)
    → seal_for (some toy) "b" payload ≡ some sealed
    → unseal_from (some toy) "a" sealed ≡ some (Plaintext.json payload)
unfolding seal_for unseal_from
sealed_back (Value.string s) sealed e =
    ap (λ x. some (Plaintext.json (Value.string x))) (sym (some_inj.0 e))
sealed_back Value.null sealed e = cc
sealed_back (Value.boolean x) sealed e = cc
sealed_back (Value.number x) sealed e = cc
sealed_back (Value.array x) sealed e = cc
sealed_back (Value.object x) sealed e = cc

toy-IsPaired : IsPaired (some toy) (some toy) "a" "b"
toy-IsPaired = record { opens = sealed_back }

send_once-handle_incoming_example :
    ((send_once (link_to sealing "a" "direct") "uuid-007" "b" "chat" (Value.string "hi") sealing).1
      ≡ ok "uuid-007")
    × ((handle_incoming "a" "direct"
          (some (message_of (some toy) "b" "uuid-007" (incr (pos 0)) "chat" (Value.string "hi")))
          sealing).0
        ≡ some (
            dispatch "a"
              (record (message_of
                (some toy)
                "b"
                "uuid-007"
                (incr (pos 0))
                "chat"
                (Value.string "hi")) { payload = Value.string "hi" })
              "direct"
              (encrypt (some toy) "b" (Value.string "hi")).1
              sealing))
unfolding envelope
send_once-handle_incoming_example =
    send_once-handle_incoming sealing sealing "a" "b" "direct" "uuid-007" "chat" (Value.string "hi")
      toy-IsPaired refl refl

-- The first attempt finds no connection, the second one is answered.
abbrev down : Link
down = record { decodes = true; dials = false; via = ""; answer = λ msg. Answer.no_answer }

abbrev up : Link
up = record {
  decodes = true;
  dials = true;
  via = "direct";
  answer = λ msg. Answer.acked (record { msg_type = "ack"; id = msg.id; seq = msg.seq });
}

abbrev first_id : String
first_id = "u1"

abbrev second_id : String
second_id = "u2"

second_succeeds : (send (down, "u1") (up, "u2") false "b" "chat" Value.null new).1 ≡ ok "u2"
unfolding send send_once after_first after_answer message_of
second_succeeds = refl

send-IsConfirmed_example :
    ((second_id ≡ first_id) × IsConfirmed down "u1" "b" "chat" Value.null new)
    ⊎ ((second_id ≡ second_id)
        × (false ≡ false)
        × IsConfirmed up "u2" "b" "chat" Value.null
            (send_once down "u1" "b" "chat" Value.null new).0)
send-IsConfirmed_example =
    send-IsConfirmed down up "u1" "u2" false "b" "chat" Value.null new "u2" second_succeeds
