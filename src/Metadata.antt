-- ===== src/Metadata.antt =====
-- Frames on the wire, src/fl_metadata.hpp and the structs of src/fl_protocol.h: the features that two
-- peers require of each other, and a frame's message with and without its media metadata.
pub mod Exchange
use framelink.Base.{
  ℕ, ◌+◌, ◌*◌, ◌/◌, Bool, true, false, not, ◌&&◌, ◌||◌, Option, none, some, List, [], ◌∷◌, ltb,
  ◌==◌, truthy, if◌then◌else◌, bit_and, bit_or, all,
}
use framelink.Base.Int.{ℤ, pos, negsuc}
use framelink.Base.Masks.{without}
use framelink.Api.{FlResult, ok, version_mismatch, invalid}

-- flFrameMetadata
pub record FrameMetadata : Type 0 where
  pub version : ℕ
  pub flags : ℕ
  pub dts_ns : ℤ
  pub duration_ns : ℕ
  pub stream_generation : ℕ
  pub reserved : List ℕ

-- FrameReadyMsg
pub record Announced : Type 0 where
  pub slot : ℕ
  pub value : ℕ
  pub pts_ns : ℤ

-- The messages of a frame. `none` stands for a payload that has not the size of its struct.
pub data FrameMessage : Type 0 where
  frame_ready : Option Announced → FrameMessage
  frame_ready_metadata : Option (Announced × FrameMetadata) → FrameMessage
  other_message : FrameMessage

abbrev pub no_metadata : FrameMetadata
no_metadata = record {
  version = 0;
  flags = 0;
  dts_ns = pos 0;
  duration_ns = 0;
  stream_generation = 0;
  reserved = 0 ∷ 0 ∷ [];
}

-- FL_FRAME_METADATA_VERSION
abbrev pub metadata_version : ℕ
metadata_version = 1

-- FrameMetadataFeature
abbrev pub metadata_feature : ℕ
metadata_feature = 1

-- FL_REQUIRE_FRAME_METADATA
abbrev pub require_metadata : ℕ
require_metadata = 0x20

-- `flags & flag`
abbrev pub has_flag : ℕ → ℕ → Bool
has_flag flags flag = truthy (bit_and flags flag)

-- localFeatures()
unfoldable pub local_features : ℕ → ℕ
local_features flags =
    bit_or metadata_feature
      (if has_flag flags require_metadata then metadata_feature * 65536 else 0)

-- compatibleFeatures(): neither side requires what the other one does not support.
unfoldable pub compatible_features : ℕ → ℕ → Bool
compatible_features local peer =
    not (truthy (without (local / 65536) (bit_and peer 0xffff)))
    && not (truthy (without (peer / 65536) (bit_and local 0xffff)))

-- The flags of a frame's metadata: FL_FRAME_HAS_DTS, FL_FRAME_HAS_DURATION, FL_FRAME_DISCONT.
abbrev pub has_dts : ℕ
has_dts = 1

abbrev pub has_duration : ℕ
has_duration = 2

abbrev pub discont : ℕ
discont = 4

abbrev pub below_zero : ℤ → Bool
below_zero (pos n) = false
below_zero (negsuc n) = true

abbrev pub is_zero : ℤ → Bool
is_zero (pos n) = n == 0
is_zero (negsuc n) = false

-- validateMetadata()
unfoldable pub validate_metadata : FrameMetadata → FlResult
validate_metadata m =
    if not (m.version == metadata_version)
    then version_mismatch
    else if truthy (without m.flags (bit_or (bit_or has_dts has_duration) discont))
        || not (all (λ w. w == 0) m.reserved)
        || m.stream_generation == 0
    then invalid
    else if (if has_flag m.flags has_dts then below_zero m.dts_ns else not (is_zero m.dts_ns))
    then invalid
    else if (if has_flag m.flags has_duration
        then ltb 9223372036854775807 m.duration_ns
        else truthy m.duration_ns)
    then invalid
    else ok

abbrev pub accept_metadata :
    FlResult → Announced × FrameMetadata → Option (Announced × FrameMetadata)
accept_metadata ok frame = some frame
accept_metadata r frame = none

-- decodeFrame(): the frame with its metadata, none where the message is refused.
unfoldable pub decode_frame : Bool → FrameMessage → Option (Announced × FrameMetadata)
decode_frame required (frame_ready none) = none
decode_frame required (frame_ready (some a)) = if required then none else some (a, no_metadata)
decode_frame required (frame_ready_metadata none) = none
decode_frame required (frame_ready_metadata (some (a, m))) =
    accept_metadata (validate_metadata m) (a, m)
decode_frame required other_message = none

-- The message of sendFrame().
unfoldable pub frame_message : Announced → FrameMetadata → FrameMessage
frame_message a m =
    if truthy m.version then frame_ready_metadata (some (a, m)) else frame_ready (some a)
