-- ===== src/Gst.antt =====
-- The GStreamer session coordinator, src/gst/framelink_session_context.cpp: the object that the
-- elements of one session share. Every function holds its lock, so that it is one step on the state;
-- a wait is a list of the states at which its condition is tested. Objects are taken to be of their
-- type, null pointers are options, and a socket connection is its number.
pub mod Events
pub mod Media
pub mod Calls
pub mod Later
pub mod Generations
pub mod Publishing
use framelink.Base.{
  ℕ, zero, suc, ◌+◌, Bool, true, false, not, ◌&&◌, ◌||◌, Option, none, some, List, [], ◌∷◌, ltb,
  leb, ◌==◌, truthy, if◌then◌else◌, bit_and, bit_or, replicate,
}
use framelink.Base.Int.{ℤ, pos, negsuc}
use framelink.Base.Masks.{without}
use framelink.Session.{
  SessionResult, Config, Capabilities, no_video, no_audio, validate_selection, validate_replacement,
  same_id, is_negative, same_test,
}
use framelink.Session.Clock.{ClockMapping, map_pts, anchors_differ, i64_max}
use framelink.Session.Message.{session_encode, session_wire_size}
use framelink.Gst.Events.{
  GstResult, ready, timed_out, cancelled, invalid, stale, EventChannel, cancel_events, new_events,
}

-- _FlGstSession, without its lock and its condition. `registered` and `tracks_ready` are sets of
-- tracks: 1 for video, 2 for audio.
pub record Coordinator : Type 0 where
  pub required : ℕ
  pub registered : ℕ
  pub tracks_ready : ℕ
  pub configured : Bool
  pub is_cancelled : Bool
  pub mapped : Bool
  pub video_ended : Bool
  pub video_frames : ℕ
  pub video_last_pts : ℤ
  pub mapping : ClockMapping
  pub max_uncertainty : ℕ
  pub audio_connection : Option ℕ
  pub audio_producer : Bool
  pub audio_claimed : Bool
  pub events : Option EventChannel
  pub config : Config

abbrev pub zero_config : Config
zero_config = record {
  version = 0;
  session_id = replicate 16 0;
  clock_id = replicate 16 0;
  generation = 0;
  video_track = 0;
  audio_track = 0;
  video = no_video;
  audio = no_audio;
  epoch_ns = pos 0;
  video_queue_frames = 0;
  audio_queue_ms = 0;
  connect_timeout_ms = 0;
  idle_timeout_ms = 0;
}

abbrev pub zero_mapping : ClockMapping
zero_mapping = record {
  source_clock = replicate 16 0;
  target_clock = replicate 16 0;
  source_anchor_ns = pos 0;
  target_anchor_ns = pos 0;
  uncertainty_ns = 0;
}

-- fl_gst_session_new()
unfoldable pub new_session : ℕ → Option Coordinator
new_session required =
    if required == 0 || truthy (without required 3)
    then none
    else some (record {
      required = required;
      registered = 0;
      tracks_ready = 0;
      configured = false;
      is_cancelled = false;
      mapped = false;
      video_ended = false;
      video_frames = 0;
      video_last_pts = pos 0;
      mapping = zero_mapping;
      max_uncertainty = 0;
      audio_connection = none;
      audio_producer = false;
      audio_claimed = false;
      events = none;
      config = zero_config;
    })

abbrev pub accepts : SessionResult → Bool
accepts SessionResult.ok = true
accepts _ = false

abbrev pub tracks_of : Config → ℕ
tracks_of c = bit_or (if truthy c.video_track then 1 else 0) (if truthy c.audio_track then 2 else 0)

-- A refused replacement.
abbrev pub replacement_refusal : SessionResult → GstResult
replacement_refusal SessionResult.stale = stale
replacement_refusal _ = invalid

-- The assignments at the end of fl_gst_session_configure().
abbrev pub with_config : Coordinator → Config → Coordinator
with_config s c = record s {
  audio_connection = none;
  events = none;
  audio_claimed = false;
  video_ended = false;
  video_frames = 0;
  video_last_pts = negsuc 0;
  config = c;
  mapped = false;
  configured = true;
  is_cancelled = false;
  tracks_ready = 0;
}

abbrev pub dropped : Option EventChannel → Option EventChannel
dropped none = none
dropped (some e) = some (cancel_events e)

-- A new state, the answer, the connection that is shut down and the event channel that is cancelled.
abbrev pub Configured : Type 0
Configured = Coordinator × GstResult × Option ℕ × Option EventChannel

-- fl_gst_session_configure()
unfoldable pub configure :
    Coordinator → Option Config → Option Capabilities → Option Capabilities → Configured
configure s none p q = (s, invalid, none, none)
configure s (some c) p q =
    if not (accepts (validate_selection (some c) p q))
    then (s, invalid, none, none)
    else if not (tracks_of c == s.required)
    then (s, invalid, none, none)
    else if s.configured && not (accepts (validate_replacement (some s.config) (some c)))
    then (s, replacement_refusal (validate_replacement (some s.config) (some c)), none, none)
    else (with_config s c, ready, s.audio_connection, dropped s.events)

abbrev pub is_track : ℕ → Bool
is_track track = track == 1 || track == 2

-- fl_gst_session_register_track()
unfoldable pub register_track : Coordinator → ℕ → Coordinator × GstResult
register_track s track =
    if not (is_track track)
    then (s, invalid)
    else if not (truthy (bit_and s.required track)) || truthy (bit_and s.registered track)
    then (s, invalid)
    else (record s { registered = bit_or s.registered track }, ready)

-- The tests of most calls: no cancellation, and the generation of the configuration.
abbrev pub is_stale : Coordinator → ℕ → Bool
is_stale s generation = not s.configured || not (s.config.generation == generation)

-- fl_gst_session_track_ready()
unfoldable pub track_ready : Coordinator → ℕ → ℕ → Coordinator × GstResult
track_ready s track generation =
    if not (is_track track)
    then (s, invalid)
    else if s.is_cancelled
    then (s, cancelled)
    else if is_stale s generation
    then (s, stale)
    else if not (truthy (bit_and s.registered track))
    then (s, invalid)
    else (record s { tracks_ready = bit_or s.tracks_ready track }, ready)

-- One round of fl_gst_session_wait(); `none` is a wait for a change.
unfoldable pub wait_round : Coordinator → ℕ → Option (GstResult × Option Config)
wait_round s generation =
    if s.is_cancelled
    then some (cancelled, none)
    else if s.configured && not (s.config.generation == generation)
    then some (stale, none)
    else if s.configured && s.tracks_ready == s.required
    then some (ready, some s.config)
    else none

abbrev pub or_rest {ℓ} : {A : Type ℓ} → Option A → A → A
or_rest none rest = rest
or_rest (some a) rest = a

-- The loop over the states at which the condition is tested, until the deadline.
unfoldable pub wait_rounds : List Coordinator → ℕ → GstResult × Option Config
wait_rounds [] generation = (timed_out, none)
wait_rounds (s ∷ states) generation =
    or_rest (wait_round s generation) (wait_rounds states generation)

-- fl_gst_session_wait()
unfoldable pub wait : List Coordinator → ℕ → ℕ → Bool → GstResult × Option Config
wait states generation timeout out =
    if not out || generation == 0 || timeout == 0 || ltb 60000 timeout
    then (invalid, none)
    else wait_rounds states generation

-- fl_gst_session_cancel(), with the connection that is shut down.
unfoldable pub cancel : Coordinator → Coordinator × Option ℕ
cancel s = (
  record s { is_cancelled = true; tracks_ready = 0; events = dropped s.events },
  s.audio_connection,
)

-- The comparison of a mapping with the one that is installed.
abbrev pub other_mapping : Coordinator → ClockMapping → ℕ → Bool
other_mapping s m max_error =
    not (same_id m.source_clock s.mapping.source_clock)
    || not (same_id m.target_clock s.mapping.target_clock)
    || anchors_differ m.source_anchor_ns s.mapping.source_anchor_ns
    || anchors_differ m.target_anchor_ns s.mapping.target_anchor_ns
    || not (m.uncertainty_ns == s.mapping.uncertainty_ns)
    || not (max_error == s.max_uncertainty)

-- fl_gst_session_set_mapping()
unfoldable pub set_mapping : Coordinator → ℕ → Option ClockMapping → ℕ → Coordinator × GstResult
set_mapping s generation none max_error = (s, invalid)
set_mapping s generation (some m) max_error =
    if s.is_cancelled
    then (s, cancelled)
    else if is_stale s generation
    then (s, stale)
    else if not (accepts (map_pts (some s.config) (some m) max_error (pos 0) true).0)
    then (s, invalid)
    else if s.mapped && other_mapping s m max_error
    then (s, invalid)
    else (record s { mapping = m; max_uncertainty = max_error; mapped = true }, ready)

-- A PTS through the mapping; nothing is written on an error.
abbrev pub mapped_pts : SessionResult × Option ℤ → GstResult × Option ℤ
mapped_pts (SessionResult.ok, r) = (ready, r)
mapped_pts (_, r) = (invalid, none)

-- fl_gst_session_map_pts(); `out` says whether its pointer is given.
unfoldable pub session_map_pts : Coordinator → ℕ → ℤ → Bool → GstResult × Option ℤ
session_map_pts s generation pts out =
    if not out
    then (invalid, none)
    else if s.is_cancelled
    then (cancelled, none)
    else if is_stale s generation
    then (stale, none)
    else if not s.mapped
    then (invalid, none)
    else mapped_pts (map_pts (some s.config) (some s.mapping) s.max_uncertainty pts true)

-- fl_gst_session_map_running_time()
unfoldable pub map_running_time : Coordinator → ℕ → ℤ → Bool → Bool → GstResult × Option ℤ
map_running_time s generation pts need out =
    if not out || is_negative pts
    then (invalid, none)
    else if s.is_cancelled
    then (cancelled, none)
    else if is_stale s generation
    then (stale, none)
    else if not s.mapped
    then (if need then (invalid, none) else (ready, some pts))
    else mapped_pts (map_pts (some s.config) (some s.mapping) s.max_uncertainty pts true)
