-- ===== src/Tests/ListenHost.antt =====
-- internal/group_types/listen, the host, on concrete inputs.
use goop.Base.{
  suc, ◌≡◌, ◌+◌, refl, true, false, not, String, List, [], ◌∷◌, Option, some, none, ok, err,
  if◌then◌else◌, ltb, ◌==◌, arith,
}
use goop.Base.Int.{pos, negsuc}
use goop.Base.Lists.{length, drop, get_elem?}
use goop.Listen.{
  Names, Manager, Mp3Info, ListenError, Group, Track, no_duration, has_track, track_of,
  is_stream_url,
}
use goop.Listen.Host.{Op, run, next, seek, advance_queue, is_hosting, is_playing}
use goop.Listen.Range.{IsInRange, run-IsInRange}
use goop.Listen.Advance.{unreadable_front, Goes, advance_queue_lem}
use goop.Listen.Playback.{seek_lem, next_unreadable}

abbrev plain : Names
plain = record { base_name = λ p. p; parse_url = λ u. none }

-- All files are songs but "bad".
abbrev shelf : String → Option Mp3Info
shelf p = if p == "bad" then none else some (record { duration = no_duration; bitrate = pos 128 })

abbrev song : Track
song = record { name = "a"; duration = no_duration; bitrate = pos 128; is_stream = false }

abbrev party : Group
party = record {
  id = "listen-1";
  name = "Party";
  is_host = true;
  track = some song;
  play_state = some true;
  queue = "a" ∷ "bad" ∷ "c" ∷ [];
  queue_types = "file" ∷ "file" ∷ "file" ∷ [];
  queue_index = 0;
  queue_total = 3;
}

abbrev playing_a : Manager
playing_a = record {
  group = some party;
  file_path = "a";
  paused = false;
  is_live = true;
  timers = 1;
  queue = "a" ∷ "bad" ∷ "c" ∷ [];
  queue_idx = 0;
  disk = none;
  controls = [];
}

playing_a-IsInRange : IsInRange playing_a
playing_a-IsInRange = record { within = λ some_left. omega arith }

abbrev evening : List Op
evening =
    Op.advances shelf
    ∷ Op.removes shelf (pos 2)
    ∷ Op.goes_back shelf false
    ∷ Op.skips shelf (negsuc 0)
    ∷ Op.removes shelf (pos 0)
    ∷ Op.closes "listen-1"
    ∷ []

run-IsInRange_example : IsInRange (run plain playing_a evening)
run-IsInRange_example = run-IsInRange plain playing_a evening playing_a-IsInRange

a_hosts : is_hosting plain playing_a ≡ true
unfolding is_hosting
a_hosts = refl

advance_queue_lem_example :
    ((advance_queue plain shelf playing_a).queue_idx
      ≡ 0
        + (if ltb
              (unreadable_front plain shelf (drop 1 playing_a.queue))
              (length (drop 1 playing_a.queue))
            then suc (unreadable_front plain shelf (drop 1 playing_a.queue))
            else unreadable_front plain shelf (drop 1 playing_a.queue)))
    × ((advance_queue plain shelf playing_a).paused
        ≡ not (
            ltb
              (unreadable_front plain shelf (drop 1 playing_a.queue))
              (length (drop 1 playing_a.queue))))
    × Goes plain shelf
        (get_elem? (drop 1 playing_a.queue) (unreadable_front plain shelf (drop 1 playing_a.queue)))
        (advance_queue plain shelf playing_a)
advance_queue_lem_example = advance_queue_lem plain shelf playing_a a_hosts

a_has_track : has_track playing_a.group ≡ true
unfolding has_track
a_has_track = refl

a_plays : is_playing plain playing_a ≡ true
unfolding is_playing
a_plays = refl

seek_lem_example :
    ((seek plain playing_a).1 ≡ ok tt)
    × (is_playing plain (seek plain playing_a).0 ≡ true)
    × ((seek plain playing_a).0.timers ≡ 0)
seek_lem_example = seek_lem plain playing_a a_hosts a_has_track a_plays

bad_unreadable : track_of plain shelf "bad" ≡ none
unfolding track_of is_stream_url
bad_unreadable = refl

next_unreadable_example :
    ((next plain shelf playing_a).1 ≡ err ListenError.unreadable)
    × ((next plain shelf playing_a).0
        ≡ record playing_a { is_live = false; timers = 0; queue_idx = 1 })
next_unreadable_example = next_unreadable plain shelf "bad" playing_a a_hosts refl bad_unreadable
