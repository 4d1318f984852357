-- ===== src/Mq/Inbox.antt =====
-- internal/mq/manager.go: the bounds of the inboxes and of the channels.
use goop.Base.{
  ℕ, suc, ◌≤◌, Bool, true, false, if◌then◌else◌, ◌||◌, String, List, [], ◌∷◌, ◌++◌, Option, none,
  some, leb, eqb, arith, Bool-cases, Option-cases, inl, inr, ◌==◌,
}
use goop.Base.Lists.{length, get_elem?, drop, length-append, length-drop}
use goop.Base.Map.{Map, lookup, Each, Each-insert, Each-lookup}
use goop.Base.Json.{Value, get, as_text, as_object}
use goop.Mq.{
  Manager, MqMsg, MqEvent, InboxEntry, Task, handle_incoming, buffer, register, take_inbox,
  replay_next, first_replay, is_loggable, cancel, notify_delivered, publish_local, log_mq_event,
  entries_of, inbox_cap, offer_each, any_dropped, deliver, dispatch, confirm, start, calls_of,
  keep_newest, is_suppressed, decrypt, is_unlogged,
}
use goop.Mq.Steps.{World, Op, act, after_handler, step, run, read, buffer_at, run_at, run_task}
use goop.Mq.Channels.{
  AllFit, AllFit-suc, AllFit-append, AllFit-offer_each, AllFit-replay_to, AllFit-without,
  AllFit-only, AllFit-left,
}

pub record IsBounded (m : Manager) : Type 0 where
  pub inboxes : Each (λ _ es. length es ≤ inbox_cap) m.inbox
  pub open_channels : AllFit m.opened m.listeners
  pub closed_channels : AllFit m.opened m.closed

-- Only the inbox, the channels and their count matter.
offered-IsBounded :
    (e : MqEvent) (m : Manager)
    → IsBounded m
    → IsBounded (record m { listeners = offer_each e m.listeners })
offered-IsBounded e m b = record {
  inboxes = b.inboxes;
  open_channels = AllFit-offer_each m.opened e m.listeners b.open_channels;
  closed_channels = b.closed_channels;
}

retasked-IsBounded :
    (ts : List Task) (m : Manager) → IsBounded m → IsBounded (record m { tasks = ts })
retasked-IsBounded ts m b = record {
  inboxes = b.inboxes;
  open_channels = b.open_channels;
  closed_channels = b.closed_channels;
}

rebuffering-IsBounded :
    (es : List InboxEntry) (m : Manager) → IsBounded m → IsBounded (record m { buffering = es })
rebuffering-IsBounded es m b = record {
  inboxes = b.inboxes;
  open_channels = b.open_channels;
  closed_channels = b.closed_channels;
}

deliver-IsBounded :
    (remote : String) (msg : MqMsg) (m : Manager) → IsBounded m → IsBounded (deliver remote msg m)
unfolding deliver
deliver-IsBounded remote msg m b =
    let offered = offered-IsBounded (MqEvent.message msg remote) m b in
    elim (Bool-cases (eqb (length m.listeners) 0 || any_dropped m.listeners)) [
      | inl some_dropped ↦ rw some_dropped (rebuffering-IsBounded _ _ offered)
      | inr none_dropped ↦ rw none_dropped offered
    ]

notify_delivered-IsBounded :
    (id : String) (m : Manager) → IsBounded m → IsBounded (notify_delivered id m)
unfolding notify_delivered
notify_delivered-IsBounded id m b = offered-IsBounded (MqEvent.delivered id) m b

confirm-IsBounded : (payload : Value) (m : Manager) → IsBounded m → IsBounded (confirm payload m)
unfolding confirm
confirm-IsBounded payload m b = elim (Option-cases (as_object payload)) [
  | inl no_fields ↦ rw (no_fields, confirm) b
  | inr (fs, fields) ↦
      let id = as_text (get "msg_id" fs) in
      elim (Bool-cases (id == "")) [
        | inl empty ↦ rw (fields, confirm, empty) b
        | inr given ↦ rw (fields, confirm, given) (notify_delivered-IsBounded id m b)
      ]
]

dispatch-IsBounded :
    (remote : String) (msg : MqMsg) (via : String) (encrypted : Bool) (m : Manager)
    → IsBounded m
    → IsBounded (dispatch remote msg via encrypted m)
unfolding dispatch start
dispatch-IsBounded remote msg via encrypted m b =
    let called = m.tasks ++ calls_of remote msg.topic msg.payload m.topic_subs in
    let b' = retasked-IsBounded called m b in
    elim (Bool-cases (msg.topic == "mq.ack")) [
      | inl ack ↦ rw ack (confirm-IsBounded msg.payload m b)
      | inr other ↦ elim (Bool-cases (is_suppressed msg.topic)) [
        | inl hidden ↦ rw (other, hidden) (retasked-IsBounded _ _ b')
        | inr open_topic ↦
            rw (other, open_topic) (retasked-IsBounded _ _ (deliver-IsBounded remote msg _ b'))
      ]
    ]

receives-IsBounded :
    (remote via : String) (msg : Option MqMsg) (w : World)
    → IsBounded w.manager
    → IsBounded (after_handler w (handle_incoming remote via msg w.manager).0).manager
unfolding handle_incoming after_handler
receives-IsBounded remote via none w b = b
receives-IsBounded remote via (some msg) w b =
    let (payload, encrypted) = decrypt w.manager.enc remote msg.payload in
    elim (Bool-cases (is_loggable msg)) [
      | inl long ↦
          rw long
            (dispatch-IsBounded remote (record msg { payload = payload }) via encrypted w.manager b)
      | inr short ↦ rw short b
    ]

keep_newest_fits :
    (es : List InboxEntry) (e : InboxEntry)
    → length es ≤ inbox_cap
    → length (keep_newest es ++ e ∷ []) ≤ inbox_cap
unfolding keep_newest
keep_newest_fits es e h = elim (Bool-cases (leb inbox_cap (length es))) [
  | inl full ↦ rw full (ground (arith, length-append (drop 1 es) (e ∷ []), length-drop 1 es))
  | inr free ↦ rw free (ground (arith, length-append es (e ∷ [])))
]

entries_fit :
    (from : String) (m : Map (List InboxEntry))
    → Each (λ _ es. length es ≤ inbox_cap) m
    → length (entries_of (lookup from m)) ≤ inbox_cap
unfolding entries_of
entries_fit from m h = elim (Option-cases (lookup from m)) [
  | inl absent ↦ rw (absent, entries_of) (omega arith)
  | inr (es, found) ↦
      rw (found, entries_of) (Each-lookup (λ _ es. length es ≤ inbox_cap) from m h found)
]

buffer-IsBounded : (e : InboxEntry) (m : Manager) → IsBounded m → IsBounded (buffer e m)
unfolding buffer
buffer-IsBounded e m b = record {
  inboxes =
      Each-insert _ e.from _ m.inbox b.inboxes
        (keep_newest_fits _ e (entries_fit e.from m.inbox b.inboxes));
  open_channels = b.open_channels;
  closed_channels = b.closed_channels;
}

buffer_at-IsBounded : (i : ℕ) (m : Manager) → IsBounded m → IsBounded (buffer_at i m)
unfolding buffer_at
buffer_at-IsBounded i m b = elim (Option-cases (get_elem? m.buffering i)) [
  | inl nothing ↦ rw (nothing, buffer_at) b
  | inr (e, found) ↦ rw (found, buffer_at) (buffer-IsBounded e _ (rebuffering-IsBounded _ m b))
]

register-IsBounded : (m : Manager) → IsBounded m → IsBounded (register m)
unfolding register AllFit
register-IsBounded m b = record {
  inboxes = b.inboxes;
  open_channels =
      AllFit-append (suc m.opened) m.listeners _ (AllFit-suc m.opened m.listeners b.open_channels)
        (omega arith, omega arith, tt);
  closed_channels = AllFit-suc m.opened m.closed b.closed_channels;
}

take_inbox-IsBounded : (ch : ℕ) (m : Manager) → IsBounded m → IsBounded (take_inbox ch m)
unfolding take_inbox
take_inbox-IsBounded ch m b = record {
  inboxes = tt;
  open_channels = b.open_channels;
  closed_channels = b.closed_channels;
}

replay_next-IsBounded : (ch : ℕ) (m : Manager) → IsBounded m → IsBounded (replay_next ch m)
unfolding replay_next
replay_next-IsBounded ch m b = record {
  inboxes = b.inboxes;
  open_channels =
      AllFit-replay_to m.opened ch (first_replay ch m.replaying) m.listeners b.open_channels;
  closed_channels = b.closed_channels;
}

cancel-IsBounded : (ch : ℕ) (m : Manager) → IsBounded m → IsBounded (cancel ch m)
unfolding cancel
cancel-IsBounded ch m b = record {
  inboxes = b.inboxes;
  open_channels = AllFit-without m.opened ch m.listeners b.open_channels;
  closed_channels =
      AllFit-append m.opened m.closed _ b.closed_channels
        (AllFit-only m.opened ch m.listeners b.open_channels);
}

read-IsBounded : (ch : ℕ) (w : World) → IsBounded w.manager → IsBounded (read ch w).manager
unfolding read
read-IsBounded ch w b = record {
  inboxes = b.inboxes;
  open_channels = AllFit-left w.manager.opened ch w.manager.listeners b.open_channels;
  closed_channels = AllFit-left w.manager.opened ch w.manager.closed b.closed_channels;
}

publish_local-IsBounded :
    (id topic from : String) (payload : Value) (m : Manager)
    → IsBounded m
    → IsBounded (publish_local id topic from payload m)
unfolding publish_local
publish_local-IsBounded id topic from payload m b = record {
  inboxes = b.inboxes;
  open_channels = AllFit-offer_each m.opened _ m.listeners b.open_channels;
  closed_channels = b.closed_channels;
}

run_task-IsBounded :
    (id : String) (ts : Value) (t : Task) (w : World)
    → IsBounded w.manager
    → IsBounded (run_task id ts t w).manager
unfolding run_task log_mq_event
run_task-IsBounded id ts (Task.calls sub from topic payload) w b = b
run_task-IsBounded id ts (Task.logs dir topic peer_id err_msg via encrypted) w b =
    elim (Bool-cases (is_unlogged topic)) [
      | inl quiet ↦ rw quiet b
      | inr logged ↦ rw logged (publish_local-IsBounded id _ _ _ w.manager b)
    ]

run_at-IsBounded :
    (i : ℕ) (id : String) (ts : Value) (w : World)
    → IsBounded w.manager
    → IsBounded (run_at i id ts w).manager
unfolding run_at
run_at-IsBounded i id ts w b = elim (Option-cases (get_elem? w.manager.tasks i)) [
  | inl nothing ↦ rw (nothing, run_at) b
  | inr (t, found) ↦
      rw (found, run_at) (run_task-IsBounded id ts t _ (retasked-IsBounded _ w.manager b))
]

act-IsBounded : (op : Op) (w : World) → IsBounded w.manager → IsBounded (act op w).manager
unfolding act
act-IsBounded (Op.receives remote via msg) w b = receives-IsBounded remote via msg w b
act-IsBounded (Op.buffers i) w b = buffer_at-IsBounded i w.manager b
act-IsBounded Op.registers w b = register-IsBounded w.manager b
act-IsBounded (Op.drains ch) w b = take_inbox-IsBounded ch w.manager b
act-IsBounded (Op.replays ch) w b = replay_next-IsBounded ch w.manager b
act-IsBounded (Op.cancels ch) w b = cancel-IsBounded ch w.manager b
act-IsBounded (Op.reads ch) w b = read-IsBounded ch w b
act-IsBounded (Op.confirms id) w b = notify_delivered-IsBounded id w.manager b
act-IsBounded (Op.publishes id topic from payload) w b =
    publish_local-IsBounded id topic from payload w.manager b
act-IsBounded (Op.runs i id ts) w b = run_at-IsBounded i id ts w b

either-IsBounded :
    (b : Bool) (v w : World)
    → IsBounded v.manager
    → IsBounded w.manager
    → IsBounded (if b then v else w).manager
either-IsBounded true v w p q = p
either-IsBounded false v w p q = q

step-IsBounded : (op : Op) (w : World) → IsBounded w.manager → IsBounded (step op w).manager
unfolding step
step-IsBounded op w b = either-IsBounded w.crashed w (act op w) b (act-IsBounded op w b)

-- Whatever arrives, in whatever order the goroutines take their steps: no peer's inbox gets more
-- than 200 messages, no channel, open or closed, holds more than 256 events, and the number of a new
-- channel is that of no other.
pub run-IsBounded :
    (w : World) (ops : List Op) → IsBounded w.manager → IsBounded (run w ops).manager
unfolding run
run-IsBounded w [] b = b
run-IsBounded w (op ∷ ops) b = run-IsBounded (step op w) ops (step-IsBounded op w b)
