-- ===== src/Listen/Advance.antt =====
-- internal/group_types/listen/host.go, advanceQueue: the next track that can be loaded.
use goop.Base.{
  ℕ, suc, ◌+◌, Bool, true, false, ◌||◌, not, String, List, [], ◌∷◌, Option, none, some,
  if◌then◌else◌, ◌==◌, ltb, ok, err, ◌≡◌, refl, sym, subst, Bool-cases, Option-cases, inl, inr, ◌∙◌,
  arith,
}
use goop.Base.Lists.{length, drop, get_elem?}
use goop.Listen.{
  Names, Manager, Mp3Info, ListenError, stop_playback, send_control, save_queue, start_streaming,
  start_timer, set_playing, play_on, update_queue_info, loaded, track_of, load_path, has_track,
  with_queue, Track, Group, Control,
}
use goop.Listen.Host.{is_hosting, is_playing, finished, advance_over, advance_queue}

module _ (names : Names) (probe : String → Option Mp3Info) where
  unfoldable pub is_readable : String → Bool
  is_readable path = elim (track_of names probe path) [ none ↦ false | some _ ↦ true ]

  -- How many tracks at the front cannot be loaded.
  unfoldable pub unreadable_front : List String → ℕ
  unreadable_front [] = 0
  unreadable_front (path ∷ paths) =
      let rest = unreadable_front paths in if is_readable path then 0 else suc rest

  record Stands (at : ℕ) (is_paused : Bool) (m : Manager) : Type 0 where
    place : m.queue_idx ≡ at
    flag : m.paused ≡ is_paused

  shifted-Stands :
      (at at' : ℕ) (b b' : Bool) (m : Manager) → at ≡ at' → b ≡ b' → Stands at b m → Stands at' b' m
  shifted-Stands at at' b b' m e f h = record { place = h.place ∙ e; flag = h.flag ∙ f }

  start_streaming-Stands :
      (at : ℕ) (b : Bool) (m : Manager) → Stands at b m → Stands at b (start_streaming m)
  unfolding start_streaming
  start_streaming-Stands at b m h =
      elim (Bool-cases (m.file_path == "" || not (has_track m.group))) [
        | inl idle ↦ rw idle h
        | inr busy ↦ rw busy (record { place = h.place; flag = h.flag })
      ]

  start_timer-Stands :
      (at : ℕ) (b : Bool) (m : Manager) → Stands at b m → Stands at b (start_timer m)
  unfolding start_timer
  start_timer-Stands at b m h = elim (Bool-cases m.is_live) [
    | inl live ↦ rw (live, start_timer) (record { place = h.place; flag = h.flag })
    | inr dead ↦ rw (dead, start_timer) (record { place = h.place; flag = h.flag })
  ]

  play_on-Stands : (at : ℕ) (m : Manager) → m.queue_idx ≡ at → Stands at false (play_on m)
  unfolding play_on send_control set_playing
  play_on-Stands at m e =
      start_timer-Stands at false _
        (start_streaming-Stands at false _ (record { place = e; flag = refl }))

  load_path-readable :
      (path : String) (m : Manager)
      → ((load_path names probe path m).0.queue_idx ≡ m.queue_idx)
        × ((load_path names probe path m).1
            ≡ (if is_readable path then ok tt else err ListenError.unreadable))
  unfolding load_path loaded update_queue_info send_control is_readable
  load_path-readable path m = elim (Option-cases (track_of names probe path)) [
    | inl bad ↦ rw (bad, load_path, is_readable) (refl, refl)
    | inr (track, good) ↦ rw (good, load_path, is_readable) (refl, refl)
  ]

  advance_over-Stands :
      (paths : List String) (m : Manager)
      → (let skipped = unreadable_front paths in
          Stands
            (m.queue_idx + (if ltb skipped (length paths) then suc skipped else skipped))
            (not (ltb skipped (length paths)))
            (advance_over names probe paths m))
  unfolding advance_over unreadable_front finished stop_playback save_queue
  advance_over-Stands [] m = record { place = omega arith; flag = refl }
  advance_over-Stands (path ∷ paths) m =
      let moved = record (stop_playback m) { queue_idx = suc m.queue_idx } in
      let (kept, outcome) = load_path-readable path moved in
      let skipped = unreadable_front paths in
      elim (Bool-cases (is_readable path)) [
        | inl good ↦
            let done : (load_path names probe path moved).1 ≡ ok tt = rw good at outcome in
            rw (good, done, advance_over)
              (shifted-Stands (suc m.queue_idx) _ false _ _ (ground arith) (ground arith)
                (play_on-Stands (suc m.queue_idx) _ kept))
        | inr bad ↦
            let failed : (load_path names probe path moved).1 ≡ err ListenError.unreadable =
              rw bad at outcome in
            rw (bad, failed, advance_over)
              (shifted-Stands _ _ (not (ltb skipped (length paths))) _ _ (ground arith)
                (ground arith) (advance_over-Stands paths moved))
      ]

  -- The host plays the track of the path: it is loaded and shown as playing, the play control was the
  -- last one sent, and, but for the empty path, its file is streamed and one timer waits for its end.
  pub record Plays (path : String) (m : Manager) : Type 0 where
    pub track : Track
    pub of_path : track_of names probe path ≡ some track
    pub file : m.file_path ≡ path
    pub group : Group
    pub has_group : m.group ≡ some group
    pub shown : group.track ≡ some track
    pub playing : group.play_state ≡ some true
    pub live : m.is_live ≡ not (path == "")
    pub timed : m.timers ≡ (if path == "" then 0 else 1)
    pub told : (cs : List Control) × (m.controls ≡ Control.plays ∷ cs)

  -- What a list of tracks that can be loaded leaves: nothing plays, or the first one.
  abbrev pub Goes : Option String → Manager → Type 0
  Goes none m = is_playing names m ≡ false
  Goes (some path) m = Plays path m

  -- The state in which a track is loaded during an advance.
  abbrev halted : Group → Manager → Manager
  halted g m = record m { group = some g; is_live = false; timers = 0 }

  halted_lem :
      (g : Group) (m : Manager)
      → m.group ≡ some g
      → m.is_live ≡ false
      → m.timers ≡ 0
      → halted g m ≡ m
  halted_lem g m there dead untimed =
      λ i. record m { group = sym there i; is_live = sym dead i; timers = sym untimed i }

  with_queue-track :
      (q : List String) (idx : ℕ) (g : Group) → (with_queue names q idx g).track ≡ g.track
  unfolding with_queue
  with_queue-track [] idx g = refl
  with_queue-track (p ∷ ps) idx g = refl

  has_track_of : (g : Group) (t : Track) → g.track ≡ some t → has_track (some g) ≡ true
  unfolding has_track
  has_track_of g t e = rw e refl

  loaded-Plays :
      (path : String) (track : Track) (g : Group) (m : Manager)
      → track_of names probe path ≡ some track
      → Plays path
          (play_on (save_queue (record (loaded names path track (halted g m)) { paused = false })))
  unfolding play_on save_queue loaded update_queue_info send_control set_playing start_streaming
      start_timer has_track
  loaded-Plays path track g m good =
      let fresh : Group = record g { track = some track; play_state = some false } in
      let shown : Group = record (with_queue names m.queue m.queue_idx fresh) {
        play_state = some true;
      } in
      let kept : shown.track ≡ some track = with_queue-track m.queue m.queue_idx fresh in
      let there : has_track (some shown) ≡ true = has_track_of shown track kept in
      elim (Bool-cases (path == "")) [
        | inl empty ↦ rw empty (record {
          track = track;
          of_path = good;
          file = refl;
          group = shown;
          has_group = refl;
          shown = kept;
          playing = refl;
          live = rw empty refl;
          timed = rw empty refl;
          told = (_, refl);
        })
        | inr named ↦
            rw (named, there)
              (record {
                track = track;
                of_path = good;
                file = refl;
                group = shown;
                has_group = refl;
                shown = kept;
                playing = refl;
                live = rw named refl;
                timed = rw named refl;
                told = (_, refl);
              })
      ]

  load_path-Plays :
      (path : String) (track : Track) (g : Group) (m : Manager)
      → track_of names probe path ≡ some track
      → m.group ≡ some g
      → m.is_live ≡ false
      → m.timers ≡ 0
      → Plays path
          (play_on (save_queue (record (load_path names probe path m).0 { paused = false })))
  unfolding load_path
  load_path-Plays path track g m good there dead untimed =
      let at =
        subst
          (λ x.
            Plays path
              (play_on (save_queue (record (loaded names path track x) { paused = false }))))
          (halted_lem g m there dead untimed) (loaded-Plays path track g m good) in
      rw (good, load_path) at

  silent :
      (o : Option Bool)
      → elim (elim o as (λ _. Option Bool) [ none ↦ none | some _ ↦ some false ]) as (λ _. Bool) [
        | none ↦ false
        | some p ↦ p
      ]
        ≡ false
  silent none = refl
  silent (some p) = refl

  finished-is_playing :
      (g : Group) (m : Manager) → m.group ≡ some g → is_playing names (finished names m) ≡ false
  unfolding is_playing finished
  finished-is_playing g m there = rw (there, finished) (silent g.play_state)

  advance_over-Goes :
      (paths : List String) (g : Group) (m : Manager)
      → m.group ≡ some g
      → Goes (get_elem? paths (unreadable_front paths)) (advance_over names probe paths m)
  unfolding advance_over unreadable_front stop_playback is_readable
  advance_over-Goes [] g m there = finished-is_playing g m there
  advance_over-Goes (path ∷ paths) g m there =
      let moved = record (stop_playback m) { queue_idx = suc m.queue_idx } in
      let (kept, outcome) = load_path-readable path moved in
      elim (Option-cases (track_of names probe path)) [
        | inl bad ↦
            let unreadable : is_readable path ≡ false = rw (bad, is_readable) refl in
            let failed : (load_path names probe path moved).1 ≡ err ListenError.unreadable =
              rw unreadable at outcome in
            rw (unreadable, failed, advance_over) (advance_over-Goes paths g moved there)
        | inr (track, good) ↦
            let readable : is_readable path ≡ true = rw (good, is_readable) refl in
            let done : (load_path names probe path moved).1 ≡ ok tt = rw readable at outcome in
            rw (readable, done, advance_over)
              (load_path-Plays path track g moved good there refl refl)
      ]

  hosted : (m : Manager) → is_hosting names m ≡ true → (g : Group) × (m.group ≡ some g)
  unfolding is_hosting
  hosted m h = elim (Option-cases m.group) [ inl e ↦ absurd (ground arith) | inr (g, e) ↦ (g, e) ]

  -- When a track ends, the host goes on with the first of the tracks after it that can be loaded, and
  -- plays it: it is loaded and shown as playing, the play control is sent, and its file is streamed
  -- with one timer for its end (but for the empty path). Where there is none, the host ends paused at the last track, and the
  -- group shows that nothing plays.
  pub advance_queue_lem :
      (m : Manager)
      → is_hosting names m ≡ true
      → (let rest = drop (suc m.queue_idx) m.queue in
          let skipped = unreadable_front rest in
          ((advance_queue names probe m).queue_idx
            ≡ m.queue_idx + (if ltb skipped (length rest) then suc skipped else skipped))
          × ((advance_queue names probe m).paused ≡ not (ltb skipped (length rest)))
          × Goes (get_elem? rest skipped) (advance_queue names probe m))
  unfolding advance_queue is_hosting
  advance_queue_lem m hosting =
      let rest = drop (suc m.queue_idx) m.queue in
      let h = advance_over-Stands rest m in
      let (g, there) = hosted m hosting in
      rw (hosting, advance_queue) (h.place, h.flag, advance_over-Goes rest g m there)
