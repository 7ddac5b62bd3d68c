-- ===== src/Session.antt =====
-- The local A/V session contract, src/framelink_session.cpp and include/framelink_session.h: the
-- formats, the configuration and their validation. Pointers that may be null are options, an array
-- with its count is a list, and an `flSessionId` is the list of its bytes.
pub mod Negotiate
pub mod Clock
pub mod Message
pub mod Replacement
use framelink.Base.{
  ℕ, zero, suc, ◌+◌, ◌*◌, ◌%◌, Bool, true, false, not, ◌&&◌, ◌||◌, Option, none, some, List, [],
  ◌∷◌, ltb, leb, ◌==◌, truthy, if◌then◌else◌, all, any, length, bit_or,
}
use framelink.Base.Int.{ℤ, pos, negsuc}

-- flSessionResult
pub data SessionResult : Type 0 where
  ok invalid version_error incompatible stale time_range : SessionResult

abbrev pub version_one : ℕ
version_one = 1

abbrev pub version_optional : ℕ
version_optional = 2

-- FL_SESSION_MAX_FORMATS
abbrev pub max_formats : ℕ
max_formats = 8

-- FL_FORMAT_NV12
abbrev pub nv12 : ℕ
nv12 = 2

-- flAudioFormat
pub record AudioFormat : Type 0 where
  pub pcm : ℕ
  pub rate : ℕ
  pub layout : ℕ

-- flVideoFormat
pub record VideoFormat : Type 0 where
  pub format : ℕ
  pub width : ℕ
  pub height : ℕ
  pub fps_num : ℕ
  pub fps_den : ℕ

-- flSessionCapabilities
pub record Capabilities : Type 0 where
  pub version : ℕ
  pub video : List VideoFormat
  pub audio : List AudioFormat

-- flSessionConfig
pub record Config : Type 0 where
  pub version : ℕ
  pub session_id : List ℕ
  pub clock_id : List ℕ
  pub generation : ℕ
  pub video_track : ℕ
  pub audio_track : ℕ
  pub video : VideoFormat
  pub audio : AudioFormat
  pub epoch_ns : ℤ
  pub video_queue_frames : ℕ
  pub audio_queue_ms : ℕ
  pub connect_timeout_ms : ℕ
  pub idle_timeout_ms : ℕ

abbrev pub no_video : VideoFormat
no_video = record { format = 0; width = 0; height = 0; fps_num = 0; fps_den = 0 }

abbrev pub no_audio : AudioFormat
no_audio = record { pcm = 0; rate = 0; layout = 0 }

abbrev pub version_valid : ℕ → Bool
version_valid v = v == version_one || v == version_optional

abbrev pub video_empty : VideoFormat → Bool
video_empty v = v.format == 0 && v.width == 0 && v.height == 0 && v.fps_num == 0 && v.fps_den == 0

abbrev pub audio_empty : AudioFormat → Bool
audio_empty a = a.pcm == 0 && a.rate == 0 && a.layout == 0

-- `uint8_t v = 0; for (b : id.bytes) v |= b;`
unfoldable pub or_bytes : ℕ → List ℕ → ℕ
or_bytes v [] = v
or_bytes v (b ∷ bs) = or_bytes (bit_or v b) bs

unfoldable pub id_valid : List ℕ → Bool
unfolding or_bytes
id_valid id = truthy (or_bytes 0 id)

-- `!memcmp(a, b, 16)` of two 16-byte arrays.
unfoldable pub same_id : List ℕ → List ℕ → Bool
same_id [] [] = true
same_id [] (y ∷ ys) = false
same_id (x ∷ xs) [] = false
same_id (x ∷ xs) (y ∷ ys) = x == y && same_id xs ys

unfoldable pub audio_valid : AudioFormat → Bool
audio_valid a =
    (a.pcm == 1 || a.pcm == 2)
    && leb 8000 a.rate
    && leb a.rate 192000
    && (a.layout == 1 || a.layout == 2)

unfoldable pub video_valid : VideoFormat → Bool
video_valid v =
    leb 1 v.format
    && leb v.format 4
    && truthy v.width
    && truthy v.height
    && leb v.width 16384
    && leb v.height 16384
    && truthy v.fps_num
    && leb v.fps_num 1000000
    && truthy v.fps_den
    && leb v.fps_den 1000000
    && (not (v.format == nv12) || (v.width % 2 == 0 && v.height % 2 == 0))

unfoldable pub audio_eq : AudioFormat → AudioFormat → Bool
audio_eq a b = a.pcm == b.pcm && a.rate == b.rate && a.layout == b.layout

-- A product of two `uint64_t`.
abbrev pub mul64 : ℕ → ℕ → ℕ
mul64 a b = (a * b) % 18446744073709551616

-- Frame rates are compared as fractions.
unfoldable pub video_eq : VideoFormat → VideoFormat → Bool
video_eq a b =
    a.format == b.format
    && a.width == b.width
    && a.height == b.height
    && mul64 a.fps_num b.fps_den == mul64 b.fps_num a.fps_den

-- The counts of caps(): both in range, and a track offered; version 1 needs both.
abbrev pub bad_counts : Capabilities → Bool
bad_counts c =
    ltb max_formats (length c.video)
    || ltb max_formats (length c.audio)
    || (length c.video == 0 && length c.audio == 0)
    || (c.version == version_one && (length c.video == 0 || length c.audio == 0))

-- caps()
unfoldable pub caps : Option Capabilities → SessionResult
caps none = invalid
caps (some c) =
    if not (version_valid c.version)
    then version_error
    else if bad_counts c
    then invalid
    else if not (all video_valid c.video)
    then invalid
    else if not (all audio_valid c.audio)
    then invalid
    else ok

abbrev pub is_negative : ℤ → Bool
is_negative (pos n) = false
is_negative (negsuc n) = true

abbrev pub out_of : ℕ → ℕ → Bool
out_of hi n = n == 0 || ltb hi n

-- Identities, generation, epoch and timeouts.
abbrev pub bad_header : Config → Bool
bad_header c =
    not (id_valid c.session_id)
    || not (id_valid c.clock_id)
    || c.generation == 0
    || is_negative c.epoch_ns
    || out_of 60000 c.connect_timeout_ms
    || out_of 60000 c.idle_timeout_ms

abbrev pub bad_tracks : Config → Bool
bad_tracks c =
    (c.video_track == 0 && c.audio_track == 0)
    || (c.version == version_one && (c.video_track == 0 || c.audio_track == 0))
    || (truthy c.video_track && c.video_track == c.audio_track)

abbrev pub bad_video : Config → Bool
bad_video c =
    if truthy c.video_track
    then not (video_valid c.video) || out_of 16 c.video_queue_frames
    else not (video_empty c.video) || truthy c.video_queue_frames

abbrev pub bad_audio : Config → Bool
bad_audio c =
    if truthy c.audio_track
    then not (audio_valid c.audio) || out_of 2000 c.audio_queue_ms
    else not (audio_empty c.audio) || truthy c.audio_queue_ms

-- flSessionValidate
unfoldable pub validate : Option Config → SessionResult
validate none = invalid
validate (some c) =
    if not (version_valid c.version)
    then version_error
    else if bad_header c
    then invalid
    else if bad_tracks c
    then invalid
    else if bad_video c
    then invalid
    else if bad_audio c
    then invalid
    else ok

-- `if (r != FL_SESSION_OK) return r;`
abbrev pub or_fail : SessionResult → SessionResult → SessionResult
or_fail ok next = next
or_fail r next = r

-- `==` of two conditions.
abbrev pub same_test : Bool → Bool → Bool
same_test true b = b
same_test false b = not b

-- One offer against the configuration, in the loop of flSessionValidateSelection.
unfoldable pub accept_offer : Config → Capabilities → SessionResult
accept_offer c offer =
    if not (offer.version == c.version)
    then version_error
    else if not (same_test (truthy (length offer.video)) (truthy c.video_track))
        || not (same_test (truthy (length offer.audio)) (truthy c.audio_track))
    then incompatible
    else if not (c.video_track == 0 || any (video_eq c.video) offer.video)
        || not (c.audio_track == 0 || any (audio_eq c.audio) offer.audio)
    then incompatible
    else ok

-- flSessionValidateSelection
unfoldable pub validate_selection :
    Option Config → Option Capabilities → Option Capabilities → SessionResult
validate_selection (some c) (some p) (some q) = or_fail (validate (some c)) (
    or_fail (caps (some p))
      (or_fail (caps (some q)) (or_fail (accept_offer c p) (accept_offer c q))))
validate_selection c p q = or_fail (validate c) (or_fail (caps p) (or_fail (caps q) invalid))

-- flSessionValidateReplacement
unfoldable pub validate_replacement : Option Config → Option Config → SessionResult
validate_replacement (some c) (some n) = or_fail (validate (some c)) (
    or_fail (validate (some n)) (
      if not (c.version == n.version)
      then version_error
      else if not (same_id c.session_id n.session_id)
          || not (c.video_track == n.video_track)
          || not (c.audio_track == n.audio_track)
      then invalid
      else if ltb c.generation n.generation
      then ok
      else stale))
validate_replacement c n = or_fail (validate c) (or_fail (validate n) invalid)
