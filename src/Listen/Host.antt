-- ===== src/Listen/Host.antt =====
-- internal/group_types/listen/host.go and events.go: what the host does with the queue and the playback.
use goop.Base.{
  ℕ, suc, ◌-◌, Bool, true, false, ◌||◌, not, String, List, [], ◌∷◌, ◌++◌, Option, none, some,
  if◌then◌else◌, ◌==◌, ltb, leb, eqb, Result, ok, err,
}
use goop.Base.Int.{ℤ, pos, negsuc}
use goop.Base.Lists.{length, take, drop}
use goop.Listen.{
  Group, Control, Manager, ListenError, Mp3Info, Names, stop_playback, send_control, save_queue,
  has_track, start_streaming, set_playing, play_on, update_queue_info, load_path, load_track_at,
}

-- The calls that reach the manager. The files that can be read may change from one to the next.
pub data Op : Type 0 where
  creates : String → String → Op
  closes : String → Op
  loads_queue adds : (String → Option Mp3Info) → List String → Op
  goes_next : (String → Option Mp3Info) → Op
  skips removes : (String → Option Mp3Info) → ℤ → Op
  goes_back : (String → Option Mp3Info) → Bool → Op
  advances : (String → Option Mp3Info) → Op
  plays pauses seeks : Op

module _ (names : Names) where
  unfoldable pub is_hosting : Manager → Bool
  is_hosting m = elim m.group [ none ↦ false | some g ↦ g.is_host ]

  -- What Next, SkipToTrack and Prev do: the track at `idx`, played on if the last one was. An error of
  -- the load ends the call.
  unfoldable pub after_load :
      Bool → Manager × Result ListenError Unit → Manager × Result ListenError Unit
  after_load was_playing (m, err e) = (m, err e)
  after_load was_playing (m, ok _) = (save_queue (if was_playing then play_on m else m), ok tt)

  unfoldable pub go_to : (String → Option Mp3Info) → ℕ → Manager → Manager × Result ListenError Unit
  go_to probe idx m =
      after_load (not m.paused)
        (load_track_at names probe idx (record (stop_playback m) { queue_idx = idx }))

  unfoldable pub saved : Manager × Result ListenError Unit → Manager × Result ListenError Unit
  saved (m, r) = (save_queue m, r)

  unfoldable pub replace_queue :
      (String → Option Mp3Info) → List String → Manager → Manager × Result ListenError Unit
  replace_queue probe paths m =
      saved
        (load_track_at names probe 0 (record (stop_playback m) { queue = paths; queue_idx = 0 }))

  unfoldable pub load_queue :
      (String → Option Mp3Info) → List String → Manager → Manager × Result ListenError Unit
  load_queue probe [] m = (m, err ListenError.no_paths)
  load_queue probe (p ∷ ps) m =
      if is_hosting m then replace_queue probe (p ∷ ps) m else (m, err ListenError.not_hosting)

  unfoldable pub add_to_queue :
      (String → Option Mp3Info) → List String → Manager → Manager × Result ListenError Unit
  add_to_queue probe [] m = (m, err ListenError.no_paths)
  add_to_queue probe (p ∷ ps) m =
      if not (is_hosting m)
      then (m, err ListenError.not_hosting)
      else if eqb (length m.queue) 0
      then replace_queue probe (p ∷ ps) m
      else (save_queue (update_queue_info names (record m { queue = m.queue ++ p ∷ ps })), ok tt)

  unfoldable pub next : (String → Option Mp3Info) → Manager → Manager × Result ListenError Unit
  next probe m =
      if not (is_hosting m)
      then (m, err ListenError.not_hosting)
      else if leb (length m.queue) (suc m.queue_idx)
      then (m, err ListenError.last_track)
      else go_to probe (suc m.queue_idx) m

  unfoldable pub skip_to_track :
      (String → Option Mp3Info) → ℤ → Manager → Manager × Result ListenError Unit
  skip_to_track probe (pos idx) m =
      if not (is_hosting m)
      then (m, err ListenError.not_hosting)
      else if leb (length m.queue) idx
      then (m, err ListenError.out_of_range)
      else go_to probe idx m
  skip_to_track probe (negsuc idx) m =
      if is_hosting m then (m, err ListenError.out_of_range) else (m, err ListenError.not_hosting)

  -- `late` says whether the position is past three seconds.
  unfoldable pub prev :
      (String → Option Mp3Info) → Bool → Manager → Manager × Result ListenError Unit
  prev probe late m =
      if not (is_hosting m)
      then (m, err ListenError.not_hosting)
      else if late || eqb m.queue_idx 0
      then go_to probe m.queue_idx m
      else go_to probe (m.queue_idx - 1) m

  unfoldable pub without_track : Group → Group
  without_track g = record g {
    track = none;
    play_state = some false;
    queue = [];
    queue_index = 0;
    queue_total = 0;
  }

  unfoldable pub emptied : Manager → Manager
  emptied m = send_control Control.pauses (record m {
    queue_idx = 0;
    file_path = "";
    group = elim m.group [ none ↦ none | some g ↦ some (without_track g) ];
  })

  -- A load that fails is tried again at the start of the queue, and then no more.
  unfoldable pub or_first : (String → Option Mp3Info) → Manager × Result ListenError Unit → Manager
  or_first probe (m, ok _) = m
  or_first probe (m, err _) = (load_track_at names probe 0 (record m { queue_idx = 0 })).0

  -- RemoveFromQueue of the track that is current, from a manager without it.
  unfoldable pub current_removed : (String → Option Mp3Info) → Manager → Manager
  current_removed probe m =
      let stopped = stop_playback m in
      let last = length m.queue - 1 in
      let at = if leb (length m.queue) m.queue_idx then last else m.queue_idx in
      let moved =
        or_first probe (load_track_at names probe at (record stopped { queue_idx = at })) in
      if eqb (length m.queue) 0 then emptied stopped else if m.paused then moved else play_on moved

  unfoldable pub other_removed : ℕ → Manager → Manager
  other_removed idx m =
      update_queue_info names
        (if ltb idx m.queue_idx then record m { queue_idx = m.queue_idx - 1 } else m)

  unfoldable pub remove_at : ℕ → Manager → Manager
  remove_at idx m = record m { queue = take idx m.queue ++ drop (suc idx) m.queue }

  unfoldable pub remove_from_queue :
      (String → Option Mp3Info) → ℤ → Manager → Manager × Result ListenError Unit
  remove_from_queue probe (negsuc idx) m =
      if is_hosting m then (m, err ListenError.out_of_range) else (m, err ListenError.not_hosting)
  remove_from_queue probe (pos idx) m =
      let fewer = remove_at idx m in
      if not (is_hosting m)
      then (m, err ListenError.not_hosting)
      else if leb (length m.queue) idx
      then (m, err ListenError.out_of_range)
      else if eqb idx m.queue_idx
      then (save_queue (current_removed probe fewer), ok tt)
      else (save_queue (other_removed idx fewer), ok tt)

  -- The end of the playlist: nothing is stopped.
  unfoldable pub finished : Manager → Manager
  finished m = record m {
    paused = true;
    group = elim m.group [
      | none ↦ none
      | some g ↦
          some (record g { play_state = elim g.play_state [ none ↦ none | some _ ↦ some false ] })
    ];
  }

  -- The loop of advanceQueue, over the tracks after the current one. A track that cannot be loaded is
  -- passed over.
  unfoldable pub advance_over : (String → Option Mp3Info) → List String → Manager → Manager
  advance_over probe [] m = finished m
  advance_over probe (path ∷ paths) m =
      let moved = record (stop_playback m) { queue_idx = suc m.queue_idx } in
      let rest = advance_over probe paths moved in
      elim (load_path names probe path moved).1 [
        | err _ ↦ rest
        | ok _ ↦
            play_on (save_queue (record (load_path names probe path moved).0 { paused = false }))
      ]

  unfoldable pub advance_queue : (String → Option Mp3Info) → Manager → Manager
  advance_queue probe m =
      if is_hosting m then advance_over probe (drop (suc m.queue_idx) m.queue) m else m

  unfoldable pub play : Manager → Manager × Result ListenError Unit
  play m =
      if not (is_hosting m)
      then (m, err ListenError.not_hosting)
      else if not (has_track m.group)
      then (m, err ListenError.no_track)
      else (play_on m, ok tt)

  unfoldable pub pause : Manager → Manager × Result ListenError Unit
  pause m = if not (is_hosting m) then (m, err ListenError.not_hosting) else (
    send_control Control.pauses (set_playing false (stop_playback (record m { paused = true }))),
    ok tt,
  )

  unfoldable pub is_playing : Manager → Bool
  is_playing m = elim m.group [
    | none ↦ false
    | some g ↦ elim g.play_state [ none ↦ false | some p ↦ p ]
  ]

  unfoldable pub seek : Manager → Manager × Result ListenError Unit
  seek m =
      let was_playing = is_playing m in
      let moved = send_control Control.seeks (set_playing was_playing (stop_playback m)) in
      if not (is_hosting m)
      then (m, err ListenError.not_hosting)
      else if not (has_track m.group)
      then (m, err ListenError.no_track)
      else if was_playing
      then (start_streaming (record moved { paused = false }), ok tt)
      else (moved, ok tt)

  unfoldable pub new_group : String → String → Group
  new_group id name = record {
    id = id;
    name = name;
    is_host = true;
    track = none;
    play_state = none;
    queue = [];
    queue_types = [];
    queue_index = 0;
    queue_total = 0;
  }

  unfoldable pub on_create : String → String → Manager → Manager × Result ListenError Unit
  on_create id name m = elim m.group [
    | some _ ↦ (m, err ListenError.in_a_group)
    | none ↦ (
      record m { group = some (new_group id name); paused = true; is_live = true; timers = 0 },
      ok tt,
    )
  ]

  unfoldable pub closed : Manager → Manager
  closed m = record (stop_playback m) { group = none; file_path = ""; queue = []; queue_idx = 0 }

  unfoldable pub on_close : String → Manager → Manager
  on_close id m =
      save_queue (elim m.group [ none ↦ m | some g ↦ if g.id == id then closed m else m ])

  unfoldable pub step : Op → Manager → Manager
  step (Op.creates id name) m = (on_create id name m).0
  step (Op.closes id) m = on_close id m
  step (Op.loads_queue probe paths) m = (load_queue probe paths m).0
  step (Op.adds probe paths) m = (add_to_queue probe paths m).0
  step (Op.goes_next probe) m = (next probe m).0
  step (Op.skips probe idx) m = (skip_to_track probe idx m).0
  step (Op.removes probe idx) m = (remove_from_queue probe idx m).0
  step (Op.goes_back probe late) m = (prev probe late m).0
  step (Op.advances probe) m = advance_queue probe m
  step Op.plays m = (play m).0
  step Op.pauses m = (pause m).0
  step Op.seeks m = (seek m).0

  unfoldable pub run : Manager → List Op → Manager
  run m [] = m
  run m (op ∷ ops) = run (step op m) ops
