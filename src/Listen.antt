-- ===== src/Listen.antt =====
-- internal/group_types/listen, the host of a listening group: host.go with the parts of manager.go,
-- queue.go and events.go that it calls. A position in a track is left out; of the one test on it,
-- "past three seconds", the answer is an argument. Indexes are natural numbers, as they never become
-- negative (see the theorems), except for those that a caller gives.
pub mod Host
pub mod Range
pub mod Advance
pub mod Playback
use Prim.Native.String.{len, slice, ◌++◌ as str_append}
use text.Mathlib.Text.{starts_with}
use goop.Base.{
  ℕ, suc, ◌+◌, ◌-◌, Bool, true, false, ◌&&◌, ◌||◌, not, String, List, [], ◌∷◌, ◌++◌, Option, none,
  some, if◌then◌else◌, ◌==◌, ltb, leb, eqb, Result, ok, err, map,
}
use goop.Base.Int.{ℤ, pos, negsuc}
use goop.Base.Lists.{length, get_elem?, take, drop}
use goop.Base.Json.{Float}

pub record Track : Type 0 where
  pub name : String
  pub duration : Float
  pub bitrate : ℤ
  pub is_stream : Bool

-- Of the PlayState, whether it says "playing".
pub record Group : Type 0 where
  pub id : String
  pub name : String
  pub is_host : Bool
  pub track : Option Track
  pub play_state : Option Bool
  pub queue : List String
  pub queue_types : List String
  pub queue_index : ℕ
  pub queue_total : ℕ

pub record QueueState : Type 0 where
  pub group_id : String
  pub paths : List String
  pub index : ℕ

pub data Control : Type 0 where
  loads : Track → List String → ℕ → Control
  plays pauses seeks : Control

-- `is_live` says whether stopCh is open, and `timers` counts the goroutines of trackTimerGoroutine that
-- stop when it closes. `disk` is the saved queue, `controls` what went to the listeners, newest first.
pub record Manager : Type 0 where
  pub group : Option Group
  pub file_path : String
  pub paused : Bool
  pub is_live : Bool
  pub timers : ℕ
  pub queue : List String
  pub queue_idx : ℕ
  pub disk : Option QueueState
  pub controls : List Control

pub data ListenError : Type 0 where
  not_hosting : ListenError
  no_paths : ListenError
  no_track : ListenError
  out_of_range : ListenError
  unreadable : ListenError
  last_track : ListenError
  in_a_group : ListenError

-- What probeMP3 finds in a file.
pub record Mp3Info : Type 0 where
  pub duration : Float
  pub bitrate : ℤ

-- `base_name` is filepath.Base, `parse_url` gives the host and the path that url.Parse finds.
pub record Names : Type 0 where
  pub base_name : String → String
  pub parse_url : String → Option (String × String)

unfoldable pub is_stream_url : String → Bool
is_stream_url s = starts_with s "http://" || starts_with s "https://"

abbrev pub no_duration : Float
no_duration = record { truncated = pos 0; is_positive = false }

-- stopPlaybackLocked: the goroutines on stopCh end.
unfoldable pub stop_playback : Manager → Manager
stop_playback m = record m { is_live = false; timers = 0 }

unfoldable pub send_control : Control → Manager → Manager
send_control c m = record m { controls = c ∷ m.controls }

unfoldable pub id_of : Option Group → String
id_of none = ""
id_of (some g) = g.id

unfoldable pub save_queue : Manager → Manager
save_queue m = record m {
  disk = some (record { group_id = id_of m.group; paths = m.queue; index = m.queue_idx });
}

unfoldable pub has_track : Option Group → Bool
has_track none = false
has_track (some g) = elim g.track [ none ↦ false | some _ ↦ true ]

-- A new stopCh, where there is something to play.
unfoldable pub start_streaming : Manager → Manager
start_streaming m =
    if m.file_path == "" || not (has_track m.group)
    then m
    else record m { is_live = true; timers = 0 }

-- `go m.trackTimerGoroutine(m.stopCh)`, which ends at once where stopCh is closed.
unfoldable pub start_timer : Manager → Manager
start_timer m = if m.is_live then record m { timers = suc m.timers } else m

unfoldable pub set_playing : Bool → Manager → Manager
set_playing p m = record m {
  group = elim m.group [ none ↦ none | some g ↦ some (record g { play_state = some p }) ];
}

-- The lines that follow `if wasPlaying`.
unfoldable pub play_on : Manager → Manager
play_on m =
    start_timer (
      start_streaming (send_control Control.plays (set_playing true (record m { paused = false }))))

module _ (names : Names) where
  unfoldable pub stream_display_name : String → String
  stream_display_name url = elim (names.parse_url url) [
    | none ↦ url
    | some (host, path) ↦
        let name = str_append host path in
        if host == ""
        then url
        else if ltb 60 (len name)
        then str_append (slice name 0 57) "..."
        else name
  ]

  unfoldable pub display_name : String → String
  display_name p = if is_stream_url p then stream_display_name p else names.base_name p

  unfoldable pub type_name : String → String
  type_name p = if is_stream_url p then "stream" else "file"

  unfoldable pub with_queue : List String → ℕ → Group → Group
  with_queue [] idx g = record g { queue = []; queue_types = []; queue_index = 0; queue_total = 0 }
  with_queue (p ∷ ps) idx g = record g {
    queue = map display_name (p ∷ ps);
    queue_types = map type_name (p ∷ ps);
    queue_index = idx;
    queue_total = length (p ∷ ps);
  }

  unfoldable pub update_queue_info : Manager → Manager
  update_queue_info m = record m {
    group = elim m.group [ none ↦ none | some g ↦ some (with_queue m.queue m.queue_idx g) ];
  }

  unfoldable pub loaded : String → Track → Manager → Manager
  loaded path track m =
      let info = update_queue_info (record m {
        file_path = path;
        paused = true;
        group = elim m.group [
          | none ↦ none
          | some g ↦ some (record g { track = some track; play_state = some false })
        ];
      }) in
      send_control (Control.loads track (map display_name m.queue) m.queue_idx) info

  unfoldable pub track_of : (String → Option Mp3Info) → String → Option Track
  track_of probe path =
      if is_stream_url path
      then some (record {
        name = stream_display_name path;
        duration = no_duration;
        bitrate = pos 0;
        is_stream = true;
      })
      else elim (probe path) [
        | none ↦ none
        | some info ↦ some (record {
          name = names.base_name path;
          duration = info.duration;
          bitrate = info.bitrate;
          is_stream = false;
        })
      ]

  unfoldable pub load_path :
      (String → Option Mp3Info) → String → Manager → Manager × Result ListenError Unit
  load_path probe path m = elim (track_of probe path) [
    | none ↦ (m, err ListenError.unreadable)
    | some track ↦ (loaded path track m, ok tt)
  ]

  -- loadTrackAtLocked. `probe` is what probeMP3 makes of the files at the time of the call.
  unfoldable pub load_track_at :
      (String → Option Mp3Info) → ℕ → Manager → Manager × Result ListenError Unit
  load_track_at probe idx m = elim (get_elem? m.queue idx) [
    | none ↦ (m, err ListenError.out_of_range)
    | some path ↦ load_path probe path m
  ]
