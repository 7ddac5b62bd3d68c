-- ===== src/Gst/Calls.antt =====
-- The calls of src/gst/framelink_session_context.cpp that change a session, as steps, and how the
-- state behind them is ordered by the generations of its configurations.
use framelink.Base.{ℕ, ◌<◌, ◌≡◌, Bool, true, Option, List, [], ◌∷◌}
use framelink.Base.Int.{ℤ}
use framelink.Session.{Config, Capabilities}
use framelink.Session.Clock.{ClockMapping}
use framelink.Gst.Events.{VideoEvent, BigEndian}
use framelink.Gst.{Coordinator, configure, register_track, track_ready, cancel, set_mapping}
use framelink.Gst.Media.{
  get_config, publish_audio, claim_audio_stream, video_eos, publish_events, send_video_event,
  receive_video_event, given,
}

pub data Call : Type 0 where
  configures : Option Config → Option Capabilities → Option Capabilities → Call
  registers : ℕ → Call
  readies : ℕ → ℕ → Call
  cancels : Call
  maps : ℕ → Option ClockMapping → ℕ → Call
  reads : Bool → Call
  publishes : Option Config → Option ℕ → Bool → Call
  claims : Bool → ℕ → Call
  ends : ℕ → ℕ → ℤ → Call
  opens : Option Config → Option ℕ → Bool → Call
  sends : ℕ → Option VideoEvent → Bool → Call
  receives : ℕ → ℕ → Bool → Call

module _ (be : BigEndian) where
  unfoldable pub act : Coordinator → Call → Coordinator
  act s (configures c p q) = (configure s c p q).0
  act s (registers track) = (register_track s track).0
  act s (readies track generation) = (track_ready s track generation).0
  act s cancels = (cancel s).0
  act s (maps generation m max_error) = (set_mapping s generation m max_error).0
  act s (reads out) = (get_config s out).0
  act s (publishes c stream producer) = (publish_audio s c stream producer).0
  act s (claims producer generation) = (claim_audio_stream s producer generation).0
  act s (ends generation frames pts) = (video_eos s generation frames pts).0
  act s (opens c stream producer) = (publish_events s c stream producer).0
  act s (sends generation event written) = (send_video_event be s generation event written).0
  act s (receives generation timeout out) = (receive_video_event s generation timeout out).0

  unfoldable pub act_all : Coordinator → List Call → Coordinator
  unfolding act
  act_all s [] = s
  act_all s (c ∷ cs) = act_all (act s c) cs

-- The state behind some calls on a configured session whose generation is still the same: the
-- configuration is, and what was installed or claimed stays so.
pub record Kept (s t : Coordinator) : Type 0 where
  pub config : t.config ≡ s.config
  pub mapped : s.mapped ≡ true → t.mapped ≡ true
  pub mapping : s.mapped ≡ true → t.mapping ≡ s.mapping
  pub certain : s.mapped ≡ true → t.max_uncertainty ≡ s.max_uncertainty
  pub connection : given s.audio_connection ≡ true → t.audio_connection ≡ s.audio_connection
  pub claimed : given s.audio_connection ≡ true → s.audio_claimed ≡ true → t.audio_claimed ≡ true

-- A configured session keeps to its generation, or goes to a later one.
pub data Later (s t : Coordinator) : Type 0 where
  kept : t.configured ≡ true → Kept s t → Later s t
  newer : t.configured ≡ true → s.config.generation < t.config.generation → Later s t
