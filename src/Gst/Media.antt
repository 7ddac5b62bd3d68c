-- ===== src/Gst/Media.antt =====
-- The streams of a session in src/gst/framelink_session_context.cpp: its configuration as a
-- snapshot, the audio connection, the end of the video, and the event channel.
use framelink.Base.{
  ℕ, Bool, true, false, not, ◌&&◌, ◌||◌, Option, none, some, List, [], ◌∷◌, ltb, ◌==◌, truthy,
  if◌then◌else◌,
}
use framelink.Base.Int.{ℤ, negsuc}
use framelink.Api.{u64_max}
use framelink.Session.{SessionResult, Config, same_id, is_negative}
use framelink.Session.Clock.{i64_max, anchors_differ}
use framelink.Session.Message.{session_encode, session_wire_size}
use framelink.Gst.Events.{
  GstResult, ready, timed_out, cancelled, invalid, stale, VideoEvent, BigEndian, EventChannel,
  new_events, send_event, receive_event, peek_end,
}
use framelink.Gst.{Coordinator, is_stale, or_rest}

abbrev pub has_failed : Option EventChannel → Bool
has_failed none = false
has_failed (some e) = e.failed

-- The failure of the event channel cancels the session; the connection that is shut down.
unfoldable pub note_failure : Coordinator → Coordinator × Option ℕ
note_failure s =
    if has_failed s.events
    then (record s { is_cancelled = true; tracks_ready = 0 }, s.audio_connection)
    else (s, none)

abbrev pub snapshot : Coordinator → GstResult × Option Config
snapshot s =
    if s.is_cancelled
    then (cancelled, none)
    else if not s.configured
    then (stale, none)
    else (ready, some s.config)

-- fl_gst_session_get_config(), with the connection that is shut down.
unfoldable pub get_config :
    Coordinator → Bool → Coordinator × (GstResult × Option Config) × Option ℕ
unfolding note_failure
get_config s out =
    let (s', shut) = note_failure s in
    if not out then (s, (invalid, none), none) else (s', snapshot s', shut)

-- Two messages that flSessionEncode() made, compared; a configuration that it refuses is unlike any.
abbrev pub same_message : SessionResult × Option (List ℕ) → SessionResult × Option (List ℕ) → Bool
same_message (SessionResult.ok, some a) (SessionResult.ok, some b) = same_id a b
same_message _ _ = false

abbrev pub same_config : Config → Config → Bool
same_config c d =
    same_message (session_encode (some c) (some session_wire_size))
      (session_encode (some d) (some session_wire_size))

-- Whether something is there.
abbrev pub given {ℓ} : {A : Type ℓ} → Option A → Bool
given none = false
given (some a) = true

-- fl_gst_session_publish_audio()
unfoldable pub publish_audio : Coordinator → Option Config → Option ℕ → Bool → Coordinator × Bool
publish_audio s none stream producer = (s, false)
publish_audio s (some c) none producer = (s, false)
publish_audio s (some c) (some stream) producer =
    if s.is_cancelled
      || not s.configured
      || given s.audio_connection
      || not (same_config c s.config)
    then (s, false)
    else (
      record s { audio_connection = some stream; audio_producer = producer; audio_claimed = false },
      true,
    )

-- fl_gst_session_claim_audio_stream()
unfoldable pub claim_audio_stream : Coordinator → Bool → ℕ → Coordinator × Option ℕ
claim_audio_stream s producer generation =
    if s.is_cancelled
      || is_stale s generation
      || not (given s.audio_connection)
      || not (if producer then s.audio_producer else not s.audio_producer)
      || s.audio_claimed
    then (s, none)
    else (record s { audio_claimed = true }, s.audio_connection)

-- The frame count and the last PTS of an end.
abbrev pub bad_end : ℕ → ℤ → Bool
bad_end frames pts = if truthy frames then is_negative pts else anchors_differ pts (negsuc 0)

-- fl_gst_session_video_eos()
unfoldable pub video_eos : Coordinator → ℕ → ℕ → ℤ → Coordinator × GstResult
video_eos s generation frames pts =
    if bad_end frames pts
    then (s, invalid)
    else if s.is_cancelled
    then (s, cancelled)
    else if is_stale s generation
    then (s, stale)
    else if s.config.video_track == 0
    then (s, invalid)
    else if s.video_ended && (not (s.video_frames == frames) || anchors_differ s.video_last_pts pts)
    then (s, invalid)
    else (record s { video_ended = true; video_frames = frames; video_last_pts = pts }, ready)

-- One round of fl_gst_session_wait_video_eos(); `none` is a wait for a change.
unfoldable pub wait_end_round : Coordinator → ℕ → Option (GstResult × Option (ℕ × ℤ))
wait_end_round s generation =
    if s.is_cancelled
    then some (cancelled, none)
    else if is_stale s generation
    then some (stale, none)
    else if s.config.video_track == 0
    then some (invalid, none)
    else if s.video_ended
    then some (ready, some (s.video_frames, s.video_last_pts))
    else none

unfoldable pub wait_end_rounds : List Coordinator → ℕ → GstResult × Option (ℕ × ℤ)
wait_end_rounds [] generation = (timed_out, none)
wait_end_rounds (s ∷ states) generation =
    or_rest (wait_end_round s generation) (wait_end_rounds states generation)

-- fl_gst_session_wait_video_eos(): the state at the call, and those at which the condition is tested
-- again; a timeout of zero does not wait.
unfoldable pub wait_video_eos :
    Coordinator → List Coordinator → ℕ → ℕ → Bool → GstResult × Option (ℕ × ℤ)
wait_video_eos s states generation timeout out =
    if not out || ltb 60000 timeout
    then (invalid, none)
    else wait_end_rounds (s ∷ (if timeout == 0 then [] else states)) generation

-- fl_gst_session_publish_events()
unfoldable pub publish_events : Coordinator → Option Config → Option ℕ → Bool → Coordinator × Bool
publish_events s none stream producer = (s, false)
publish_events s (some c) none producer = (s, false)
publish_events s (some c) (some stream) producer =
    if s.is_cancelled || not s.configured || given s.events || not (same_config c s.config)
    then (s, false)
    else (
      record s { events = some (new_events stream producer c.generation c.idle_timeout_ms) },
      true,
    )

-- eventChannel()
unfoldable pub event_channel : Coordinator → ℕ → Option EventChannel
event_channel s generation = if s.is_cancelled || is_stale s generation then none else s.events

-- fl_gst_session_has_event_stream()
unfoldable pub has_event_stream : Coordinator → ℕ → Bool
unfolding event_channel
has_event_stream s generation = given (event_channel s generation)

abbrev pub with_events : Coordinator → EventChannel → Coordinator
with_events s e = record s { events = some e }

unfoldable pub send_on :
    BigEndian
    → Coordinator
    → VideoEvent
    → Bool
    → Option EventChannel
    → Coordinator × GstResult × Option (List ℕ)
send_on be s event written none = (s, invalid, none)
send_on be s event written (some c) =
    let (c', r, m) = send_event be c event written in (with_events s c', r, m)

-- fl_gst_session_send_video_event(), with the message that goes out if the stream takes it.
unfoldable pub send_video_event :
    BigEndian
    → Coordinator
    → ℕ
    → Option VideoEvent
    → Bool
    → Coordinator × GstResult × Option (List ℕ)
unfolding send_on
send_video_event be s generation none written = (s, invalid, none)
send_video_event be s generation (some event) written =
    send_on be s event written (event_channel s generation)

-- fl_gst_session_peek_video_end(); `out` says whether its pointer is given.
unfoldable pub peek_video_end : Coordinator → ℕ → Bool → GstResult × Option VideoEvent
peek_video_end s generation out = elim (event_channel s generation) [
  | none ↦ (invalid, none)
  | some c ↦
      if not out
      then (invalid, none)
      else if given (peek_end c)
      then (ready, peek_end c)
      else (timed_out, none)
]

unfoldable pub receive_on :
    Coordinator → ℕ → Bool → Option EventChannel → Coordinator × GstResult × Option VideoEvent
receive_on s timeout out none = (s, invalid, none)
receive_on s timeout false (some c) = (s, invalid, none)
receive_on s timeout true (some c) =
    let (c', r, e) = receive_event c timeout in (with_events s c', r, e)

-- fl_gst_session_receive_video_event(), where the wait for an event is over; `out` says whether its
-- pointer is given.
unfoldable pub receive_video_event :
    Coordinator → ℕ → ℕ → Bool → Coordinator × GstResult × Option VideoEvent
unfolding receive_on
receive_video_event s generation timeout out = receive_on s timeout out (event_channel s generation)

-- fl_gst_segment_running_time(), from whether the segment is one of time at rate 1, and from what
-- gst_segment_to_running_time() makes of a PTS; GST_CLOCK_TIME_NONE is the greatest word.
unfoldable pub segment_running_time : Bool → (ℕ → ℕ) → ℕ → Option ℕ
segment_running_time plain to_running pts =
    if not plain || pts == u64_max
    then none
    else if to_running pts == u64_max || ltb i64_max (to_running pts)
    then none
    else some (to_running pts)
