-- ===== src/Mq/Held.antt =====
-- internal/mq/manager.go: what each operation does to the count of the messages that are held anywhere.
use goop.Base.{
  ℕ, ◌+◌, ◌≤◌, Bool, true, false, ◌||◌, not, String, List, [], ◌∷◌, ◌++◌, Option, none, some,
  if◌then◌else◌, leb, eqb, ◌≡◌, refl, arith, Bool-cases, Option-cases, inl, inr, ◌==◌, subst,
}
use goop.Base.Lists.{length, get_elem?}
use goop.Base.Map.{lookup}
use goop.Base.Json.{Value, get, as_text, as_object}
use goop.Mq.{
  Manager, MqMsg, MqEvent, InboxEntry, Task, handle_incoming, buffer, register, take_inbox,
  replay_next, replays_of, first_replay, cancel, notify_delivered, publish_local, log_mq_event,
  entries_of, all_buffered, inbox_cap, offer_each, any_dropped, deliver, dispatch, confirm, start,
  calls_of, keep_newest, is_suppressed, decrypt, is_unlogged,
}
use goop.Mq.Steps.{
  World, Op, act, after_handler, has_log_id, read, taken, remove_at, buffer_at, run_at, run_task,
  has_room, fits,
}
use goop.Mq.Counts.{
  hit, hits, boxed, waiting_hits, hits-append, boxed-append, waiting_hits-append, boxed-insert,
  boxed-remove_at, waiting_hits-offer_each, waiting_hits-offered, waiting_hits-replay_to,
  waiting_hits-without, replay_hits, replay_hits-append, replay_hits-replays_of,
  replay_hits-first_later, waiting_hits-read,
}

-- A test on messages with their senders, such as "has this id".
module _ (test : MqMsg → String → Bool) where
  -- All copies of the messages: on the way to an inbox, in one, on the way from it to a channel, in an
  -- open channel, or shown.
  unfoldable pub held : World → ℕ
  held w =
      boxed test (all_buffered w.manager.inbox)
      + boxed test w.manager.buffering
      + waiting_hits test w.manager.listeners
      + replay_hits test w.manager.replaying
      + hits test w.shown

  -- What a browser is to see: the messages that handle_incoming passes on.
  unfoldable pub passed_on : MqMsg → Bool
  passed_on msg = not (msg.topic == "mq.ack" || is_suppressed msg.topic)

  pub held-deliver :
      (remote : String) (msg : MqMsg) (w : World)
      → held w + hit test (MqEvent.message msg remote)
        ≤ held (record w { manager = deliver remote msg w.manager })
  unfolding held deliver boxed
  held-deliver remote msg w =
      let m = w.manager in
      let event = MqEvent.message msg remote in
      let kept = waiting_hits-offer_each test event m.listeners in
      elim (Bool-cases (eqb (length m.listeners) 0 || any_dropped m.listeners)) [
        | inl some_dropped ↦
            let entry : InboxEntry = record { msg = msg; from = remote } in
            rw some_dropped (omega (arith, kept, boxed-append test m.buffering (entry ∷ [])))
        | inr none_dropped ↦
            rw none_dropped
              (omega (arith, waiting_hits-offered test event m.listeners none_dropped))
      ]

  pub held-offered :
      (e : MqEvent) (w : World)
      → held w
        ≤ held (record w {
          manager = record w.manager { listeners = offer_each e w.manager.listeners };
        })
  unfolding held
  held-offered e w = omega (arith, waiting_hits-offer_each test e w.manager.listeners)

  pub held-publish_local :
      (id topic from : String) (payload : Value) (w : World)
      → held w ≤ held (record w { manager = publish_local id topic from payload w.manager })
  unfolding held publish_local
  held-publish_local id topic from payload w =
      omega (arith, waiting_hits-offer_each test _ w.manager.listeners)

  pub held-notify_delivered :
      (id : String) (w : World)
      → held w ≤ held (record w { manager = notify_delivered id w.manager })
  unfolding notify_delivered
  held-notify_delivered id w = held-offered (MqEvent.delivered id) w

  pub held-confirm :
      (payload : Value) (w : World)
      → held w ≤ held (record w { manager = confirm payload w.manager })
  unfolding confirm
  held-confirm payload w = elim (Option-cases (as_object payload)) [
    | inl no_fields ↦ rw (no_fields, confirm) (omega arith)
    | inr (fs, fields) ↦
        let id = as_text (get "msg_id" fs) in
        elim (Bool-cases (id == "")) [
          | inl empty ↦ rw (fields, confirm, empty) (omega arith)
          | inr given ↦ rw (fields, confirm, given) (held-notify_delivered id w)
        ]
  ]

  -- Tasks hold no message that a browser is to see.
  pub held-tasks :
      (ts : List Task) (m : Manager) (w : World)
      → held (record w { manager = record m { tasks = ts } }) ≡ held (record w { manager = m })
  unfolding held
  held-tasks ts m w = refl

  pub held-dispatch :
      (remote : String) (msg : MqMsg) (via : String) (encrypted : Bool) (w : World)
      → held w + (if passed_on msg then hit test (MqEvent.message msg remote) else 0)
        ≤ held (record w { manager = dispatch remote msg via encrypted w.manager })
  unfolding passed_on dispatch start
  held-dispatch remote msg via encrypted w =
      let m = w.manager in
      elim (Bool-cases (msg.topic == "mq.ack")) [
        | inl ack ↦ rw ack (omega (arith, held-confirm msg.payload w))
        | inr other ↦
            let called = m.tasks ++ calls_of remote msg.topic msg.payload m.topic_subs in
            let log = Task.logs "recv" msg.topic remote "" via encrypted in
            let u = record w { manager = record m { tasks = called } } in
            elim (Bool-cases (is_suppressed msg.topic)) [
              | inl hidden ↦ rw (other, hidden) (omega (arith, held-tasks (called ++ log ∷ []) m w))
              | inr open_topic ↦
                  let passed = deliver remote msg u.manager in
                  rw (other, open_topic)
                    (omega (
                      arith,
                      held-tasks called m w,
                      held-deliver remote msg u,
                      held-tasks (passed.tasks ++ log ∷ []) passed w,
                    ))
            ]
      ]

  -- The message as the browser sees it.
  unfoldable pub as_read : Option MqMsg → String → World → ℕ
  as_read none remote w = 0
  as_read (some msg) remote w =
      let shown = record msg { payload = (decrypt w.manager.enc remote msg.payload).0 } in
      if passed_on shown then hit test (MqEvent.message shown remote) else 0

  -- A message that arrives adds at least one copy where a browser is to see it.
  pub held-receives :
      (remote : String) (via : String) (msg : Option MqMsg) (w : World)
      → has_log_id msg ≡ true
      → held w + as_read msg remote w ≤ held (act (Op.receives remote via msg) w)
  unfolding as_read act handle_incoming after_handler has_log_id
  held-receives remote via none w room = omega arith
  held-receives remote via (some msg) w room =
      let (payload, encrypted) = decrypt w.manager.enc remote msg.payload in
      rw room (held-dispatch remote (record msg { payload = payload }) via encrypted w)

  pub held-log_mq_event :
      (id : String) (ts : Value) (dir topic peer_id err_msg via : String) (encrypted : Bool)
      (w : World)
      → held w
        ≤ held (record w {
          manager = log_mq_event id ts dir topic peer_id err_msg via encrypted w.manager;
        })
  unfolding log_mq_event
  held-log_mq_event id ts dir topic peer_id err_msg via encrypted w =
      elim (Bool-cases (is_unlogged topic)) [
        | inl quiet ↦ rw quiet (omega arith)
        | inr logged ↦ rw logged (held-publish_local id "log:mq" "" _ w)
      ]

  pub held_less :
      (i : ℕ) (entry : InboxEntry) (w : World)
      → get_elem? w.manager.buffering i ≡ some entry
      → held (record w {
        manager = record w.manager { buffering = remove_at i w.manager.buffering };
      })
          + hit test (MqEvent.message entry.msg entry.from)
        ≡ held w
  unfolding held
  held_less i entry w found = omega (arith, boxed-remove_at test i entry w.manager.buffering found)

  pub held-register : (w : World) → held w ≤ held (record w { manager = register w.manager })
  unfolding held register
  held-register w = omega (arith, waiting_hits-append test w.manager.listeners _)

  pub held-take_inbox :
      (ch : ℕ) (w : World) → held w ≤ held (record w { manager = take_inbox ch w.manager })
  unfolding held take_inbox all_buffered boxed
  held-take_inbox ch w =
      let es = all_buffered w.manager.inbox in
      omega (
        arith,
        replay_hits-append test w.manager.replaying (replays_of ch es),
        replay_hits-replays_of test ch es,
      )

  pub held-replay_next :
      (ch : ℕ) (w : World)
      → has_room (Op.replays ch) w ≡ true
      → held w ≤ held (record w { manager = replay_next ch w.manager })
  unfolding held replay_next has_room
  held-replay_next ch w room =
      let m = w.manager in
      omega (
        arith,
        replay_hits-first_later test ch m.replaying,
        waiting_hits-replay_to test ch (first_replay ch m.replaying) m.listeners room,
      )

  pub held-cancel :
      (ch : ℕ) (w : World)
      → has_room (Op.cancels ch) w ≡ true
      → held w ≤ held (record w { manager = cancel ch w.manager })
  unfolding held cancel has_room
  held-cancel ch w room = omega (arith, waiting_hits-without test ch w.manager.listeners room)

  pub held-read : (ch : ℕ) (w : World) → held w ≤ held (read ch w)
  unfolding held read
  held-read ch w =
      let m = w.manager in
      omega (
        arith,
        waiting_hits-read test ch m.listeners,
        hits-append test (w.shown ++ taken ch m.listeners) (taken ch m.closed),
        hits-append test w.shown (taken ch m.listeners),
      )

  pub held-run_task :
      (id : String) (ts : Value) (t : Task) (w : World) → held w ≤ held (run_task id ts t w)
  unfolding run_task held
  held-run_task id ts (Task.calls sub from topic payload) w = omega arith
  held-run_task id ts (Task.logs dir topic peer_id err_msg via encrypted) w =
      held-log_mq_event id ts dir topic peer_id err_msg via encrypted w

  pub held-buffer :
      (entry : InboxEntry) (w : World)
      → fits w.manager (some entry) ≡ true
      → held w + hit test (MqEvent.message entry.msg entry.from)
        ≤ held (record w { manager = buffer entry w.manager })
  unfolding held buffer fits keep_newest boxed
  held-buffer entry w room =
      let buf = entries_of (lookup entry.from w.manager.inbox) in
      let kept : leb inbox_cap (length buf) ≡ false = ground arith in
      rw kept (
        omega (
          arith,
          boxed-append test buf (entry ∷ []),
          boxed-insert test entry.from (buf ++ entry ∷ []) w.manager.inbox,
        ))

  pub held-buffer_at :
      (i : ℕ) (w : World)
      → has_room (Op.buffers i) w ≡ true
      → held w ≤ held (record w { manager = buffer_at i w.manager })
  unfolding buffer_at has_room fits
  held-buffer_at i w room =
      let m = w.manager in
      elim (Option-cases (get_elem? m.buffering i)) [
        | inl nothing ↦ rw (nothing, buffer_at) (omega arith)
        | inr (entry, found) ↦
            let u = record w { manager = record m { buffering = remove_at i m.buffering } } in
            let free : fits m (some entry) ≡ true = subst (λ o. fits m o ≡ true) found room in
            rw (found, buffer_at)
              (omega (arith, held-buffer entry u free, held_less i entry w found))
      ]

  pub held-run_at :
      (i : ℕ) (id : String) (ts : Value) (w : World) → held w ≤ held (run_at i id ts w)
  unfolding run_at run_task
  held-run_at i id ts w = elim (Option-cases (get_elem? w.manager.tasks i)) [
    | inl nothing ↦ rw (nothing, run_at) (omega arith)
    | inr (t, found) ↦
        rw (found, run_at)
          (omega (
            arith,
            held-run_task id ts t
                (record w { manager = record w.manager { tasks = remove_at i w.manager.tasks } }),
            held-tasks (remove_at i w.manager.tasks) w.manager w,
          ))
  ]
