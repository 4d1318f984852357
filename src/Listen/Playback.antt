-- ===== src/Listen/Playback.antt =====
-- internal/group_types/listen/host.go: a playback that goes on without the goroutine that ends its track.
use goop.Base.{
  ℕ, zero, suc, ◌<◌, Bool, true, false, ◌||◌, not, String, List, [], ◌∷◌, Option, none, some, ◌==◌,
  leb, ok, err, ◌≡◌, ◌≢◌, refl, Bool-cases, Option-cases, inl, inr, ◌∙◌, arith,
}
use goop.Base.Lists.{length, get_elem?}
use goop.Listen.{
  Names, Manager, Mp3Info, ListenError, Group, Control, stop_playback, send_control,
  start_streaming, set_playing, track_of, load_path, load_track_at, has_track,
}
use goop.Listen.Host.{is_hosting, after_load, go_to, next, seek, is_playing}

false_ne_true : false ≢ true
false_ne_true h = cc

get_elem?-inside : (xs : List String) (i : ℕ) (x : String) → get_elem? xs i ≡ some x → i < length xs
get_elem?-inside [] i x e = absurd cc
get_elem?-inside (y ∷ ys) zero x e = omega arith
get_elem?-inside (y ∷ ys) (suc i) x e = omega (arith, get_elem?-inside ys i x e)

module _ (names : Names) where
  start_streaming-keeps :
      (m : Manager)
      → m.timers ≡ 0
      → ((start_streaming m).timers ≡ 0)
        × (is_playing names (start_streaming m) ≡ is_playing names m)
  unfolding start_streaming is_playing
  start_streaming-keeps m quiet = elim (Bool-cases (m.file_path == "" || not (has_track m.group))) [
    | inl idle ↦ rw idle (quiet, refl)
    | inr busy ↦ rw busy (refl, refl)
  ]

  is_playing-set_playing :
      (p : Bool) (g : Group) (m : Manager)
      → m.group ≡ some g
      → is_playing names (set_playing p m) ≡ p
  unfolding is_playing set_playing
  is_playing-set_playing p g m there = rw (there, is_playing, set_playing) refl

  -- After a Seek during playback the group still plays, but no goroutine waits for the end of the
  -- track any more, so that nothing calls advanceQueue.
  pub seek_lem :
      (m : Manager)
      → is_hosting names m ≡ true
      → has_track m.group ≡ true
      → is_playing names m ≡ true
      → ((seek names m).1 ≡ ok tt)
        × (is_playing names (seek names m).0 ≡ true)
        × ((seek names m).0.timers ≡ 0)
  unfolding seek stop_playback send_control set_playing has_track is_playing
  seek_lem m hosting there playing = elim (Option-cases m.group) [
    | inl no_group ↦ absurd (false_ne_true (rw (no_group, has_track) at there))
    | inr (g, some_group) ↦
        let stopped = stop_playback m in
        let moved = record (send_control Control.seeks (set_playing true stopped)) {
          paused = false;
        } in
        let (none_left, goes_on) = start_streaming-keeps moved refl in
        rw (hosting, there, playing, seek)
          (refl, goes_on ∙ is_playing-set_playing true g stopped some_group, none_left)
  ]

  -- A Next to a track that cannot be loaded fails, but has stopped the playback and moved the index,
  -- while the group that the listeners see stays as it was, with its old track and, if it played,
  -- "playing".
  pub next_unreadable :
      (probe : String → Option Mp3Info) (path : String) (m : Manager)
      → is_hosting names m ≡ true
      → get_elem? m.queue (suc m.queue_idx) ≡ some path
      → track_of names probe path ≡ none
      → ((next names probe m).1 ≡ err ListenError.unreadable)
        × ((next names probe m).0
            ≡ record m { is_live = false; timers = 0; queue_idx = suc m.queue_idx })
  unfolding next go_to after_load load_track_at load_path stop_playback
  next_unreadable probe path m hosting there bad =
      let inside = get_elem?-inside m.queue (suc m.queue_idx) path there in
      let room : leb (length m.queue) (suc m.queue_idx) ≡ false = ground arith in
      rw (hosting, room, there, bad, next, load_track_at, load_path) (refl, refl)
