-- ===== src/Mq/Delivery.antt =====
-- internal/mq/manager.go: no message that a browser is to see gets lost between the handler, the inbox
-- and the channels, as long as nothing overflows.
use goop.Base.{
  ℕ, ◌+◌, ◌≤◌, Bool, true, String, List, [], ◌∷◌, ◌≡◌, arith, refl, sym, ap, ◌∙◌, subst, false,
  none, some, Option-cases, inl, inr, if◌then◌else◌,
}
use goop.Base.Lists.{get_elem?}
use goop.Base.Json.{Value}
use goop.Mq.{MqMsg, Task, handle_incoming}
use goop.Mq.Steps.{
  World, Op, act, step, run, has_room, IsRoomy, has_log_id, after_handler, read, run_at, run_task,
}
use goop.Mq.Held.{
  held, as_read, held-publish_local, held-notify_delivered, held-receives, held-register,
  held-take_inbox, held-replay_next, held-cancel, held-read, held-buffer_at, held-run_at,
}

run_task_crashed :
    (id : String) (ts : Value) (t : Task) (w : World) → (run_task id ts t w).crashed ≡ w.crashed
unfolding run_task
run_task_crashed id ts (Task.calls sub from topic payload) w = refl
run_task_crashed id ts (Task.logs dir topic peer_id err_msg via encrypted) w = refl

run_at_crashed :
    (i : ℕ) (id : String) (ts : Value) (w : World) → (run_at i id ts w).crashed ≡ w.crashed
unfolding run_at
run_at_crashed i id ts w = elim (Option-cases (get_elem? w.manager.tasks i)) [
  | inl nothing ↦ rw (nothing, run_at) refl
  | inr (t, found) ↦ rw (found, run_at) (run_task_crashed id ts t _)
]

step_up : (op : Op) (w : World) → w.crashed ≡ false → step op w ≡ act op w
unfolding step
step_up op w up = ap (λ b. if b then w else act op w) up

-- A test on messages with their senders, such as "has this id".
module _ (test : MqMsg → String → Bool) where
  -- How many of the messages that arrive a browser is to see, and pass the test.
  unfoldable pub arriving : Op → World → ℕ
  arriving (Op.receives remote via msg) w = as_read test msg remote w
  arriving _ w = 0

  unfoldable pub arrivals : World → List Op → ℕ
  arrivals w [] = 0
  arrivals w (op ∷ ops) = arriving op w + arrivals (step op w) ops

  -- A step that drops nothing lets no message disappear.
  held-act :
      (op : Op) (w : World)
      → has_room op w ≡ true
      → held test w + arriving op w ≤ held test (act op w)
  unfolding act arriving has_room
  held-act (Op.receives remote via msg) w room = held-receives test remote via msg w room
  held-act (Op.buffers i) w room = omega (arith, held-buffer_at test i w room)
  held-act Op.registers w room = omega (arith, held-register test w)
  held-act (Op.drains ch) w room = omega (arith, held-take_inbox test ch w)
  held-act (Op.replays ch) w room = omega (arith, held-replay_next test ch w room)
  held-act (Op.cancels ch) w room = omega (arith, held-cancel test ch w room)
  held-act (Op.reads ch) w room = omega (arith, held-read test ch w)
  held-act (Op.confirms id) w room = omega (arith, held-notify_delivered test id w)
  held-act (Op.publishes id topic from payload) w room =
      omega (arith, held-publish_local test id topic from payload w)
  held-act (Op.runs i id ts) w room = omega (arith, held-run_at test i id ts w)

  act-crashed : (op : Op) (w : World) → has_room op w ≡ true → (act op w).crashed ≡ w.crashed
  unfolding act has_room has_log_id handle_incoming after_handler read run_at run_task
  act-crashed (Op.receives remote via none) w room = refl
  act-crashed (Op.receives remote via (some msg)) w room = rw room refl
  act-crashed (Op.buffers i) w room = refl
  act-crashed Op.registers w room = refl
  act-crashed (Op.drains ch) w room = refl
  act-crashed (Op.replays ch) w room = refl
  act-crashed (Op.cancels ch) w room = refl
  act-crashed (Op.reads ch) w room = refl
  act-crashed (Op.confirms id) w room = refl
  act-crashed (Op.publishes id topic from payload) w room = refl
  act-crashed (Op.runs i id ts) w room = run_at_crashed i id ts w

  -- While the ids of the messages that arrive have at least 8 bytes, no inbox and no channel overflows
  -- in buffering and replay, a replay finds its channel open, and every channel is read to its end before it is cancelled, the process
  -- does not crash, and every message that arrives for the browsers is then on its way to an inbox, in
  -- one, on its way from it to a channel, in an open channel, or shown, and stays so, in whatever order
  -- the handlers, Subscribe and the browsers take their steps: for every test on messages, the copies
  -- of those that pass it are at least as many as before and the arrived ones together.
  pub held-run :
      (w : World) (ops : List Op)
      → w.crashed ≡ false
      → IsRoomy w ops
      → ((run w ops).crashed ≡ false) × (held test w + arrivals w ops ≤ held test (run w ops))
  unfolding run IsRoomy arrivals step
  held-run w [] up room = (up, omega arith)
  held-run w (op ∷ ops) up room =
      let next : step op w ≡ act op w = step_up op w up in
      let still_up : (step op w).crashed ≡ false =
        ap (λ v. v.crashed) next ∙ act-crashed op w room.0 ∙ up in
      let (end_up, rest) = held-run (step op w) ops still_up room.1 in
      let here =
        subst (λ v. held test w + arriving op w ≤ held test v) (sym next) (held-act op w room.0) in
      (end_up, omega (arith, here, rest))
