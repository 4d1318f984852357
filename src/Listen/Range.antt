-- ===== src/Listen/Range.antt =====
-- internal/group_types/listen/host.go: the current track is one of the queue.
use goop.Base.{
  ℕ, zero, suc, ◌+◌, ◌-◌, ◌≤◌, ◌<◌, Bool, true, false, ◌||◌, not, String, List, [], ◌∷◌, ◌++◌,
  Option, none, if◌then◌else◌, ◌==◌, ltb, leb, eqb, Result, ok, err, ◌≡◌, ◌≢◌, refl, Bool-cases,
  Option-cases, Result-cases, inl, inr, ap, arith,
}
use goop.Base.Int.{ℤ, pos, negsuc}
use goop.Base.Lists.{length, get_elem?, take, drop, length-append, length-drop}
use goop.Listen.{
  Names, Manager, Mp3Info, ListenError, stop_playback, send_control, save_queue, start_streaming,
  start_timer, set_playing, play_on, update_queue_info, loaded, track_of, load_path, load_track_at,
  has_track,
}
use goop.Listen.Host.{
  is_hosting, after_load, go_to, saved, replace_queue, load_queue, add_to_queue, next,
  skip_to_track, prev, emptied, or_first, current_removed, other_removed, remove_at,
  remove_from_queue, finished, advance_over, advance_queue, play, pause, seek, is_playing,
  on_create, closed, on_close, Op, step, run,
}

-- Where there is a queue, the index is one of its places.
pub record IsInRange (m : Manager) : Type 0 where
  pub within : 0 < length m.queue → m.queue_idx < length m.queue

-- Only the queue and its index matter.
same-IsInRange :
    (m n : Manager) → n.queue ≡ m.queue → n.queue_idx ≡ m.queue_idx → IsInRange m → IsInRange n
same-IsInRange m n q i h =
    let len : length n.queue ≡ length m.queue = ap length q in
    record { within = λ some_left. omega (arith, len, i, h.within (omega (arith, len))) }

start_streaming-IsInRange : (m : Manager) → IsInRange m → IsInRange (start_streaming m)
unfolding start_streaming
start_streaming-IsInRange m h = elim (Bool-cases (m.file_path == "" || not (has_track m.group))) [
  | inl idle ↦ rw idle h
  | inr busy ↦ rw busy (same-IsInRange m _ refl refl h)
]

start_timer-IsInRange : (m : Manager) → IsInRange m → IsInRange (start_timer m)
unfolding start_timer
start_timer-IsInRange m h = elim (Bool-cases m.is_live) [
  | inl live ↦ rw (live, start_timer) (same-IsInRange m _ refl refl h)
  | inr dead ↦ rw (dead, start_timer) (same-IsInRange m _ refl refl h)
]

if-IsInRange :
    (b : Bool) (m n : Manager)
    → (b ≡ true → IsInRange m)
    → (b ≡ false → IsInRange n)
    → IsInRange (if b then m else n)
if-IsInRange true m n h k = h refl
if-IsInRange false m n h k = k refl

length-take : (n : ℕ) (xs : List String) → n ≤ length xs → length (take n xs) ≡ n
length-take zero xs h = refl
length-take (suc n) [] h = absurd (omega arith)
length-take (suc n) (x ∷ xs) h = ap suc (length-take n xs (omega arith))

-- One track fewer.
length-removed :
    (xs : List String) (i : ℕ)
    → i < length xs
    → length (take i xs ++ drop (suc i) xs) ≡ length xs - 1
length-removed xs i h = omega (
  arith,
  length-append (take i xs) (drop (suc i) xs),
  length-take i xs (omega arith),
  length-drop (suc i) xs,
)

play_on-IsInRange : (m : Manager) → IsInRange m → IsInRange (play_on m)
unfolding play_on send_control set_playing
play_on-IsInRange m h =
    start_timer-IsInRange _ (start_streaming-IsInRange _ (same-IsInRange m _ refl refl h))

save-IsInRange : (m : Manager) → IsInRange m → IsInRange (save_queue m)
unfolding save_queue
save-IsInRange m h = same-IsInRange m _ refl refl h

module _ (names : Names) (probe : String → Option Mp3Info) where
  load_path-IsInRange :
      (path : String) (m : Manager) → IsInRange m → IsInRange (load_path names probe path m).0
  unfolding load_path loaded update_queue_info send_control
  load_path-IsInRange path m h = elim (Option-cases (track_of names probe path)) [
    | inl bad ↦ rw (bad, load_path) h
    | inr (track, good) ↦ rw (good, load_path) (same-IsInRange m _ refl refl h)
  ]

  load_track_at-IsInRange :
      (idx : ℕ) (m : Manager) → IsInRange m → IsInRange (load_track_at names probe idx m).0
  unfolding load_track_at
  load_track_at-IsInRange idx m h = elim (Option-cases (get_elem? m.queue idx)) [
    | inl out ↦ rw (out, load_track_at) h
    | inr (path, there) ↦ rw (there, load_track_at) (load_path-IsInRange path m h)
  ]

  after_load-IsInRange :
      (was_playing : Bool) (r : Manager × Result ListenError Unit)
      → IsInRange r.0
      → IsInRange (after_load names was_playing r).0
  unfolding after_load
  after_load-IsInRange was_playing (m, err e) h = h
  after_load-IsInRange true (m, ok _) h = save-IsInRange _ (play_on-IsInRange m h)
  after_load-IsInRange false (m, ok _) h = save-IsInRange m h

  go_to-IsInRange :
      (idx : ℕ) (m : Manager)
      → (0 < length m.queue → idx < length m.queue)
      → IsInRange (go_to names probe idx m).0
  unfolding go_to stop_playback
  go_to-IsInRange idx m h = after_load-IsInRange (not m.paused) _ (
      load_track_at-IsInRange idx (record (stop_playback m) { queue_idx = idx })
        (record { within = h }))

  replace_queue-IsInRange :
      (paths : List String) (m : Manager) → IsInRange (replace_queue names probe paths m).0
  unfolding replace_queue saved stop_playback
  replace_queue-IsInRange paths m = save-IsInRange _ (
      load_track_at-IsInRange 0 (record (stop_playback m) { queue = paths; queue_idx = 0 })
        (record { within = λ some_left. some_left }))

  load_queue-IsInRange :
      (paths : List String) (m : Manager)
      → IsInRange m
      → IsInRange (load_queue names probe paths m).0
  unfolding load_queue
  load_queue-IsInRange [] m h = h
  load_queue-IsInRange (p ∷ ps) m h = elim (Bool-cases (is_hosting names m)) [
    | inl hosting ↦ rw (hosting, load_queue) (replace_queue-IsInRange (p ∷ ps) m)
    | inr guest ↦ rw (guest, load_queue) h
  ]

  longer-IsInRange :
      (paths : List String) (m : Manager)
      → 0 < length m.queue
      → IsInRange m
      → IsInRange (record m { queue = m.queue ++ paths })
  longer-IsInRange paths m some_left h = record {
    within = λ _. omega (arith, length-append m.queue paths, h.within some_left);
  }

  add_to_queue-IsInRange :
      (paths : List String) (m : Manager)
      → IsInRange m
      → IsInRange (add_to_queue names probe paths m).0
  unfolding add_to_queue update_queue_info
  add_to_queue-IsInRange [] m h = h
  add_to_queue-IsInRange (p ∷ ps) m h = elim (Bool-cases (not (is_hosting names m))) [
    | inl guest ↦ rw guest h
    | inr hosting ↦ elim (Bool-cases (eqb (length m.queue) 0)) [
      | inl empty ↦ rw (hosting, empty) (replace_queue-IsInRange (p ∷ ps) m)
      | inr some_left ↦
          let more = longer-IsInRange (p ∷ ps) m (ground arith) h in
          rw (hosting, some_left)
            (save-IsInRange _
              (same-IsInRange (record m { queue = m.queue ++ p ∷ ps }) _ refl refl more))
    ]
  ]

  next-IsInRange : (m : Manager) → IsInRange m → IsInRange (next names probe m).0
  unfolding next
  next-IsInRange m h = elim (Bool-cases (not (is_hosting names m))) [
    | inl guest ↦ rw guest h
    | inr hosting ↦ elim (Bool-cases (leb (length m.queue) (suc m.queue_idx))) [
      | inl last ↦ rw (hosting, last) h
      | inr room ↦ rw (hosting, room) (go_to-IsInRange (suc m.queue_idx) m (λ _. ground arith))
    ]
  ]

  skip_to_track-IsInRange :
      (idx : ℤ) (m : Manager) → IsInRange m → IsInRange (skip_to_track names probe idx m).0
  unfolding skip_to_track
  skip_to_track-IsInRange (pos idx) m h = elim (Bool-cases (not (is_hosting names m))) [
    | inl guest ↦ rw guest h
    | inr hosting ↦ elim (Bool-cases (leb (length m.queue) idx)) [
      | inl beyond ↦ rw (hosting, beyond) h
      | inr room ↦ rw (hosting, room) (go_to-IsInRange idx m (λ _. ground arith))
    ]
  ]
  skip_to_track-IsInRange (negsuc idx) m h = elim (Bool-cases (is_hosting names m)) [
    | inl hosting ↦ rw (hosting, skip_to_track) h
    | inr guest ↦ rw (guest, skip_to_track) h
  ]

  prev-IsInRange : (late : Bool) (m : Manager) → IsInRange m → IsInRange (prev names probe late m).0
  unfolding prev
  prev-IsInRange late m h = elim (Bool-cases (not (is_hosting names m))) [
    | inl guest ↦ rw guest h
    | inr hosting ↦ elim (Bool-cases (late || eqb m.queue_idx 0)) [
      | inl restart ↦ rw (hosting, restart) (go_to-IsInRange m.queue_idx m h.within)
      | inr back ↦
          rw (hosting, back)
            (go_to-IsInRange (m.queue_idx - 1) m
              (λ some_left. let old = h.within some_left in omega arith))
    ]
  ]

  or_first-IsInRange :
      (r : Manager × Result ListenError Unit) → IsInRange r.0 → IsInRange (or_first names probe r)
  unfolding or_first
  or_first-IsInRange (m, ok _) h = h
  or_first-IsInRange (m, err e) h =
      load_track_at-IsInRange 0 (record m { queue_idx = 0 })
        (record { within = λ some_left. some_left })

  current_removed-IsInRange : (m : Manager) → IsInRange (current_removed names probe m)
  unfolding current_removed emptied stop_playback send_control
  current_removed-IsInRange m =
      let at = if leb (length m.queue) m.queue_idx then length m.queue - 1 else m.queue_idx in
      let start = record (stop_playback m) { queue_idx = at } in
      let placed : IsInRange start = record { within = λ some_left. ground arith } in
      let moved = or_first names probe (load_track_at names probe at start) in
      let h : IsInRange moved =
        or_first-IsInRange (load_track_at names probe at start)
          (load_track_at-IsInRange at start placed) in
      if-IsInRange (eqb (length m.queue) 0) _ _
        (λ empty. record { within = λ some_left. absurd (ground arith) })
        (λ _. if-IsInRange m.paused moved (play_on moved) (λ _. h) (λ _. play_on-IsInRange moved h))

  other_removed-IsInRange :
      (idx : ℕ) (m : Manager)
      → idx ≢ m.queue_idx
      → idx < length m.queue
      → IsInRange m
      → IsInRange (other_removed names idx (remove_at names idx m))
  unfolding other_removed remove_at update_queue_info
  other_removed-IsInRange idx m other inside h =
      let fewer = length-removed m.queue idx inside in
      let old = h.within (omega arith) in
      let kept = record m { queue = take idx m.queue ++ drop (suc idx) m.queue } in
      let moved = record kept { queue_idx = m.queue_idx - 1 } in
      same-IsInRange (if ltb idx m.queue_idx then moved else kept) _ refl refl (
        if-IsInRange (ltb idx m.queue_idx) moved kept
          (λ before. record { within = λ some_left. ground (arith, fewer, old) })
          (λ after. record { within = λ some_left. ground (arith, fewer, old) }))

  remove_from_queue-IsInRange :
      (idx : ℤ) (m : Manager) → IsInRange m → IsInRange (remove_from_queue names probe idx m).0
  unfolding remove_from_queue
  remove_from_queue-IsInRange (negsuc idx) m h = elim (Bool-cases (is_hosting names m)) [
    | inl hosting ↦ rw (hosting, remove_from_queue) h
    | inr guest ↦ rw (guest, remove_from_queue) h
  ]
  remove_from_queue-IsInRange (pos idx) m h = elim (Bool-cases (not (is_hosting names m))) [
    | inl guest ↦ rw guest h
    | inr hosting ↦ elim (Bool-cases (leb (length m.queue) idx)) [
      | inl beyond ↦ rw (hosting, beyond) h
      | inr inside ↦ elim (Bool-cases (eqb idx m.queue_idx)) [
        | inl current ↦
            rw (hosting, inside, current)
              (save-IsInRange _ (current_removed-IsInRange (remove_at names idx m)))
        | inr other ↦
            rw (hosting, inside, other)
              (save-IsInRange _
                (other_removed-IsInRange idx m (λ e. ground arith) (ground arith) h))
      ]
    ]
  ]

  -- The tracks left to try come after the current one.
  advance_over-IsInRange :
      (paths : List String) (m : Manager)
      → (0 < length m.queue → length paths + suc m.queue_idx ≡ length m.queue)
      → IsInRange m
      → IsInRange (advance_over names probe paths m)
  unfolding advance_over finished stop_playback
  advance_over-IsInRange [] m left h = same-IsInRange m _ refl refl h
  advance_over-IsInRange (path ∷ paths) m left h =
      let moved = record (stop_playback m) { queue_idx = suc m.queue_idx } in
      let h' : IsInRange moved = record { within = λ some_left. omega (arith, left some_left) } in
      elim (Result-cases (load_path names probe path moved).1) [
        | inr (e, bad) ↦
            rw (bad, advance_over)
              (advance_over-IsInRange paths moved (λ some_left. omega (arith, left some_left)) h')
        | inl (_, good) ↦
            rw (good, advance_over)
              (play_on-IsInRange _ (
                save-IsInRange _ (
                  same-IsInRange (load_path names probe path moved).0 _ refl refl
                    (load_path-IsInRange path moved h'))))
      ]

  advance_queue-IsInRange : (m : Manager) → IsInRange m → IsInRange (advance_queue names probe m)
  unfolding advance_queue
  advance_queue-IsInRange m h = elim (Bool-cases (is_hosting names m)) [
    | inr guest ↦ rw (guest, advance_queue) h
    | inl hosting ↦
        rw (hosting, advance_queue)
          (advance_over-IsInRange (drop (suc m.queue_idx) m.queue) m
            (λ some_left. omega (arith, length-drop (suc m.queue_idx) m.queue, h.within some_left))
            h)
  ]

  play-IsInRange : (m : Manager) → IsInRange m → IsInRange (play names m).0
  unfolding play
  play-IsInRange m h = elim (Bool-cases (not (is_hosting names m))) [
    | inl guest ↦ rw guest h
    | inr hosting ↦ elim (Bool-cases (not (has_track m.group))) [
      | inl empty ↦ rw (hosting, empty) h
      | inr there ↦ rw (hosting, there) (play_on-IsInRange m h)
    ]
  ]

  pause-IsInRange : (m : Manager) → IsInRange m → IsInRange (pause names m).0
  unfolding pause stop_playback send_control set_playing
  pause-IsInRange m h = elim (Bool-cases (not (is_hosting names m))) [
    | inl guest ↦ rw guest h
    | inr hosting ↦ rw hosting (same-IsInRange m _ refl refl h)
  ]

  seek-IsInRange : (m : Manager) → IsInRange m → IsInRange (seek names m).0
  unfolding seek stop_playback send_control set_playing
  seek-IsInRange m h = elim (Bool-cases (not (is_hosting names m))) [
    | inl guest ↦ rw guest h
    | inr hosting ↦ elim (Bool-cases (not (has_track m.group))) [
      | inl empty ↦ rw (hosting, empty) h
      | inr there ↦ elim (Bool-cases (is_playing names m)) [
        | inl playing ↦
            rw (hosting, there, playing)
              (start_streaming-IsInRange _ (same-IsInRange m _ refl refl h))
        | inr quiet ↦ rw (hosting, there, quiet) (same-IsInRange m _ refl refl h)
      ]
    ]
  ]

  on_create-IsInRange :
      (id name : String) (m : Manager) → IsInRange m → IsInRange (on_create names id name m).0
  unfolding on_create
  on_create-IsInRange id name m h = elim (Option-cases m.group) [
    | inl free ↦ rw (free, on_create) (same-IsInRange m _ refl refl h)
    | inr (_, taken) ↦ rw (taken, on_create) h
  ]

  closed-IsInRange : (m : Manager) → IsInRange (closed names m)
  unfolding closed stop_playback
  closed-IsInRange m = record { within = λ some_left. absurd (omega arith) }

  on_close-IsInRange : (id : String) (m : Manager) → IsInRange m → IsInRange (on_close names id m)
  unfolding on_close
  on_close-IsInRange id m h = elim (Option-cases m.group) [
    | inl none_there ↦ rw (none_there, on_close) (save-IsInRange _ h)
    | inr (g, there) ↦ elim (Bool-cases (g.id == id)) [
      | inl same ↦ rw (there, on_close, same) (save-IsInRange _ (closed-IsInRange m))
      | inr other ↦ rw (there, on_close, other) (save-IsInRange _ h)
    ]
  ]

module _ (names : Names) where
  step-IsInRange : (op : Op) (m : Manager) → IsInRange m → IsInRange (step names op m)
  unfolding step
  step-IsInRange (Op.creates id name) m h = on_create-IsInRange names (λ p. none) id name m h
  step-IsInRange (Op.closes id) m h = on_close-IsInRange names (λ p. none) id m h
  step-IsInRange (Op.loads_queue probe paths) m h = load_queue-IsInRange names probe paths m h
  step-IsInRange (Op.adds probe paths) m h = add_to_queue-IsInRange names probe paths m h
  step-IsInRange (Op.goes_next probe) m h = next-IsInRange names probe m h
  step-IsInRange (Op.skips probe idx) m h = skip_to_track-IsInRange names probe idx m h
  step-IsInRange (Op.removes probe idx) m h = remove_from_queue-IsInRange names probe idx m h
  step-IsInRange (Op.goes_back probe late) m h = prev-IsInRange names probe late m h
  step-IsInRange (Op.advances probe) m h = advance_queue-IsInRange names probe m h
  step-IsInRange Op.plays m h = play-IsInRange names (λ p. none) m h
  step-IsInRange Op.pauses m h = pause-IsInRange names (λ p. none) m h
  step-IsInRange Op.seeks m h = seek-IsInRange names (λ p. none) m h

  -- Whatever is done to the queue and its playback, and whichever files can be read: as long as there
  -- is a track in the queue, the current index is that of one.
  pub run-IsInRange : (m : Manager) (ops : List Op) → IsInRange m → IsInRange (run names m ops)
  unfolding run
  run-IsInRange m [] h = h
  run-IsInRange m (op ∷ ops) h = run-IsInRange (step names op m) ops (step-IsInRange op m h)
