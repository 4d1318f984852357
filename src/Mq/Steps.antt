-- ===== src/Mq/Steps.antt =====
-- The message queue of internal/mq/manager.go in time: a step is what one goroutine does under one lock,
-- so that an order of steps is an interleaving of the handlers, of Subscribe and of the browser's reads.
use goop.Base.{
  ℕ, zero, suc, ◌+◌, Bool, ◌&&◌, true, false, String, List, [], ◌∷◌, ◌++◌, Option, none, some,
  if◌then◌else◌, ltb, leb, eqb, ◌≡◌,
}
use goop.Base.Lists.{length, get_elem?}
use goop.Base.Map.{lookup}
use goop.Base.Json.{Value}
use goop.Mq.{
  Manager, MqMsg, MqEvent, InboxEntry, Listener, Task, handle_incoming, buffer, register,
  take_inbox, replay_next, first_replay, is_loggable, cancel, notify_delivered, publish_local,
  log_mq_event, entries_of, inbox_cap, listener_cap,
}

-- `shown` has what the browsers read, and `called` the callbacks that ran, newest last. A panic of a
-- handler ends the process: it has `crashed`.
pub record World : Type 0 where
  pub manager : Manager
  pub shown : List MqEvent
  pub called : List Task
  pub crashed : Bool

-- The numbers of `buffers` and `runs` are places in the lists of the goroutines that wait; those of
-- `drains`, `replays`, `cancels` and `reads` are channels.
pub data Op : Type 0 where
  receives : String → String → Option MqMsg → Op
  buffers : ℕ → Op
  registers : Op
  drains : ℕ → Op
  replays : ℕ → Op
  cancels : ℕ → Op
  reads : ℕ → Op
  confirms : String → Op
  publishes : String → String → String → Value → Op
  runs : ℕ → String → Value → Op

unfoldable pub remove_at {ℓ} : {A : Type ℓ} → ℕ → List A → List A
remove_at i [] = []
remove_at zero (x ∷ xs) = xs
remove_at (suc i) (x ∷ xs) = x ∷ remove_at i xs

unfoldable pub first_of : List MqEvent → List MqEvent
first_of [] = []
first_of (e ∷ es) = e ∷ []

unfoldable pub rest_of : List MqEvent → List MqEvent
rest_of [] = []
rest_of (e ∷ es) = es

-- `evt := <-ch`, from an open channel or from the buffer of a closed one.
unfoldable pub taken : ℕ → List Listener → List MqEvent
taken ch [] = []
taken ch (l ∷ ls) = let rest = taken ch ls in if eqb l.channel ch then first_of l.waiting else rest

unfoldable pub left : ℕ → List Listener → List Listener
left ch [] = []
left ch (l ∷ ls) =
    let rest = left ch ls in
    if eqb l.channel ch then record l { waiting = rest_of l.waiting } ∷ ls else l ∷ rest

unfoldable pub read : ℕ → World → World
read ch w = record w {
  manager = record w.manager {
    listeners = left ch w.manager.listeners;
    closed = left ch w.manager.closed;
  };
  shown = w.shown ++ taken ch w.manager.listeners ++ taken ch w.manager.closed;
}

unfoldable pub buffer_at : ℕ → Manager → Manager
buffer_at i m = elim (get_elem? m.buffering i) [
  | none ↦ m
  | some entry ↦ buffer entry (record m { buffering = remove_at i m.buffering })
]

unfoldable pub run_task : String → Value → Task → World → World
run_task id ts (Task.calls sub from topic payload) w = record w {
  called = w.called ++ Task.calls sub from topic payload ∷ [];
}
run_task id ts (Task.logs dir topic peer_id err_msg via encrypted) w = record w {
  manager = log_mq_event id ts dir topic peer_id err_msg via encrypted w.manager;
}

unfoldable pub run_at : ℕ → String → Value → World → World
run_at i id ts w = elim (get_elem? w.manager.tasks i) [
  | none ↦ w
  | some t ↦
      run_task id ts t
        (record w { manager = record w.manager { tasks = remove_at i w.manager.tasks } })
]

unfoldable pub after_handler : World → Option Manager → World
after_handler w none = record w { crashed = true }
after_handler w (some m) = record w { manager = m }

unfoldable pub act : Op → World → World
act (Op.receives remote via msg) w = after_handler w (handle_incoming remote via msg w.manager).0
act (Op.buffers i) w = record w { manager = buffer_at i w.manager }
act Op.registers w = record w { manager = register w.manager }
act (Op.drains ch) w = record w { manager = take_inbox ch w.manager }
act (Op.replays ch) w = record w { manager = replay_next ch w.manager }
act (Op.cancels ch) w = record w { manager = cancel ch w.manager }
act (Op.reads ch) w = read ch w
act (Op.confirms id) w = record w { manager = notify_delivered id w.manager }
act (Op.publishes id topic from payload) w = record w {
  manager = publish_local id topic from payload w.manager;
}
act (Op.runs i id ts) w = run_at i id ts w

-- After a crash nothing happens.
unfoldable pub step : Op → World → World
step op w = let next = act op w in if w.crashed then w else next

unfoldable pub run : World → List Op → World
run w [] = w
run w (op ∷ ops) = run (step op w) ops

-- Whether the channel `ch` is open and has room for `n` more events.
unfoldable pub has_space : ℕ → ℕ → List Listener → Bool
has_space ch n [] = false
has_space ch n (l ∷ ls) =
    let rest = has_space ch n ls in
    if eqb l.channel ch then leb (length l.waiting + n) listener_cap else rest

unfoldable pub fits : Manager → Option InboxEntry → Bool
fits m none = true
fits m (some entry) = ltb (length (entries_of (lookup entry.from m.inbox))) inbox_cap

-- No channel of that number has an event that waits.
unfoldable pub is_read : ℕ → List Listener → Bool
is_read ch [] = true
is_read ch (l ∷ ls) =
    let rest = is_read ch ls in if eqb l.channel ch then eqb (length l.waiting) 0 && rest else rest

unfoldable pub has_log_id : Option MqMsg → Bool
has_log_id none = true
has_log_id (some msg) = is_loggable msg

-- Whether a step drops nothing: a message that arrives does not make the handler panic, a peer's inbox
-- that is written to is not full, what is replayed fits in its channel, which is still open, and a
-- channel that is cancelled was read to its end.
unfoldable pub has_room : Op → World → Bool
has_room (Op.receives remote via msg) w = has_log_id msg
has_room (Op.buffers i) w = fits w.manager (get_elem? w.manager.buffering i)
has_room (Op.replays ch) w =
    has_space ch (length (first_replay ch w.manager.replaying)) w.manager.listeners
has_room (Op.cancels ch) w = is_read ch w.manager.listeners
has_room _ w = true

unfoldable pub IsRoomy : World → List Op → Type 0
IsRoomy w [] = Unit
IsRoomy w (op ∷ ops) = (has_room op w ≡ true) × IsRoomy (step op w) ops
