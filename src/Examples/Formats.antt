-- ===== src/Examples/Formats.antt =====
-- An offer, a configuration and a clock mapping of src/framelink_session.cpp, and a plane of
-- src/fl_layout.h.
use framelink.Base.{
  ℕ, ◌≡◌, refl, true, false, some, [], ◌∷◌, arith, ◌&&◌, ◌||◌, not, truthy, if◌then◌else◌, length,
  replicate, ◌+◌, ◌-◌, ◌*◌, ◌<◌, ◌≤◌, ◌↔◌,
}
use framelink.Base.Int.{pos}
use framelink.Session.{
  SessionResult, ok, incompatible, time_range, AudioFormat, VideoFormat, Capabilities, Config, caps,
  validate, validate_selection, validate_replacement, video_valid, audio_valid, id_valid, same_id,
}
use framelink.Session.Message.{session_encode, session_decode, session_to_wire, session_wire_size}
use framelink.Session.Message.RoundTrip.{HasFields, session_decode-encode}
use framelink.Layout.{plane_fits}
use framelink.Layout.Planes.{plane_fits_iff}
use framelink.Session.Negotiate.{
  negotiate, negotiate_common, validate_selection-negotiate, common_video, common_audio, common_48k,
  pick_video, pick_audio,
}
use framelink.Session.Clock.{ClockMapping, map_pts, map_pts_lem, bad_mapping, bad_identity}

abbrev hd : ℕ → VideoFormat
hd scale = record { format = 2; width = 1280; height = 720; fps_num = 30 * scale; fps_den = scale }

abbrev stereo : ℕ → AudioFormat
stereo rate = record { pcm = 1; rate = rate; layout = 2 }

abbrev producer : Capabilities
producer = record { version = 1; video = hd 1 ∷ []; audio = stereo 44100 ∷ stereo 48000 ∷ [] }

abbrev consumer : Capabilities
consumer = record { version = 1; video = hd 1001 ∷ []; audio = stereo 44100 ∷ stereo 48000 ∷ [] }

producer_ok : caps (some producer) ≡ ok
unfolding caps video_valid audio_valid
producer_ok = refl

consumer_ok : caps (some consumer) ≡ ok
unfolding caps video_valid audio_valid
consumer_ok = refl

negotiate_common_example : (negotiate (some producer) (some consumer) true).0 ≡ (
    if (truthy (length producer.video) && not (common_video producer.video consumer.video))
      || (truthy (length producer.audio) && not (common_audio producer.audio consumer.audio))
    then incompatible
    else ok)
negotiate_common_example = negotiate_common producer consumer producer_ok consumer_ok refl refl

agreed : negotiate (some producer) (some consumer) true ≡ (ok, some (hd 1, stereo 48000))
unfolding negotiate caps video_valid audio_valid framelink.Session.video_eq
    framelink.Session.audio_eq pick_video pick_audio
agreed = refl

common : common_48k producer.audio consumer.audio ≡ true
unfolding framelink.Session.audio_eq
common = refl

abbrev config : Config
config = record {
  version = 1;
  session_id = replicate 16 1;
  clock_id = replicate 16 2;
  generation = 4;
  video_track = 1;
  audio_track = 2;
  video = hd 1;
  audio = stereo 48000;
  epoch_ns = pos 1000;
  video_queue_frames = 4;
  audio_queue_ms = 200;
  connect_timeout_ms = 5000;
  idle_timeout_ms = 5000;
}

config_ok : validate (some config) ≡ ok
unfolding validate id_valid video_valid audio_valid
config_ok = refl

validate_selection-negotiate_example :
    validate_selection (some config) (some producer) (some consumer) ≡ ok
validate_selection-negotiate_example =
    validate_selection-negotiate producer consumer (hd 1) (stereo 48000) config agreed config_ok
      refl refl refl refl refl

abbrev mapping : ClockMapping
mapping = record {
  source_clock = replicate 16 2;
  target_clock = replicate 16 3;
  source_anchor_ns = pos 500;
  target_anchor_ns = pos 800;
  uncertainty_ns = 10;
}

mapping_ok : bad_mapping config mapping (pos 40) ≡ false
unfolding same_id id_valid
mapping_ok = refl

identity_ok : bad_identity mapping ≡ false
unfolding same_id
identity_ok = refl

map_pts_lem_example : map_pts (some config) (some mapping) 100 (pos 40) true ≡ (ok, some (pos 1340))
map_pts_lem_example =
    map_pts_lem config mapping 100 1000 40 500 800 config_ok mapping_ok (omega arith) identity_ok
      (refl, omega arith) (omega arith) (refl, omega arith) (refl, omega arith)

config_fields : HasFields config
config_fields = record {
  version = omega arith;
  session_id = refl;
  clock_id = refl;
  generation = omega arith;
  video_track = omega arith;
  audio_track = omega arith;
  format = omega arith;
  width = omega arith;
  height = omega arith;
  fps_num = omega arith;
  fps_den = omega arith;
  pcm = omega arith;
  rate = omega arith;
  layout = omega arith;
  video_queue = omega arith;
  audio_queue = omega arith;
  connect = omega arith;
  idle = omega arith;
}

config_encoded :
    session_encode (some config) (some session_wire_size) ≡ (ok, some (session_to_wire config))
unfolding session_encode validate id_valid video_valid audio_valid
config_encoded = refl

session_decode-encode_example :
    session_decode (some (session_to_wire config)) true ≡ (ok, some config)
session_decode-encode_example =
    session_decode-encode config 1000 (session_to_wire config) config_fields refl (omega arith)
      config_encoded

plane_fits_iff_example :
    (plane_fits 4096 64 512 4 500 ≡ true)
    ↔ ((0 < 4) × (0 < 500) × (500 ≤ 512) × (64 + ((4 - 1) * 512 + 500) ≤ 4096))
plane_fits_iff_example = plane_fits_iff 4096 64 512 4 500 (omega arith) (omega arith)

-- The configuration of another generation.
abbrev renewed : ℕ → Config
renewed generation = record config { generation = generation }

first_renewal : validate_replacement (some config) (some (renewed 5)) ≡ ok
unfolding validate_replacement validate id_valid video_valid audio_valid same_id
first_renewal = refl

second_renewal : validate_replacement (some (renewed 5)) (some (renewed 7)) ≡ ok
unfolding validate_replacement validate id_valid video_valid audio_valid same_id
second_renewal = refl
