-- ===== src/Producer.antt =====
-- The producer's half of a channel, src/framelink_linux.cpp with src/fl_sync_fd.hpp: which slots
-- of the ring are free, and how a frame is reserved, submitted and released. The control socket and
-- the fences are not under src/: what they deliver is an argument of each operation.
pub mod Submitted
pub mod Ownership
pub mod Rounds
pub mod Submission
pub mod Attach
pub mod Acquisition
use framelink.Base.{
  ℕ, zero, suc, ◌+◌, ◌-◌, ◌%◌, Bool, true, false, not, ◌&&◌, ◌||◌, Option, none, some, List, [],
  ◌∷◌, ltb, leb, ◌==◌, truthy, if◌then◌else◌, length, get_elem?, set, get_or,
}
use framelink.Base.Int.{ℤ}
use framelink.Api.{FlResult, ok, timeout, disconnected, format_unsupported, invalid, busy, u64_max}
use framelink.Ring.{RingInfo, Dmabuf}
use framelink.References.{References, is_busy}
use framelink.Metadata.{
  FrameMetadata, FrameMessage, no_metadata, frame_message, metadata_feature, validate_metadata,
}

-- fl::SyncFds::releases: a released value and its fence's file descriptor, none for -1.
pub record Release : Type 0 where
  pub value : ℕ
  pub fd : Option ℕ

-- The producer's fields of flChannel. `images` are the addresses of its images, `dmabufs` what they
-- describe.
pub record Producer : Type 0 where
  pub info : RingInfo
  pub images : List ℕ
  pub dmabufs : List Dmabuf
  pub submit_values : List ℕ
  pub consumed : ℕ
  pub ready_value : ℕ
  pub submitting_slot : ℕ
  pub submitting_value : ℕ
  pub releases : List Release
  pub references : References
  pub slot_metadata : List FrameMetadata
  pub peer_features : ℕ
  pub connected : Bool

-- flBuffer
pub record Buffer : Type 0 where
  pub slot : ℕ
  pub image : ℕ

-- What the consumer may send: FrameReleased, or another type.
pub data Message : Type 0 where
  frame_released : Release → Message
  other_type : Message

-- UINT32_MAX
abbrev pub no_slot : ℕ
no_slot = 4294967295

-- fenceReady(), by what poll() says of a descriptor.
abbrev pub fence_ready : (ℕ → Bool) → Option ℕ → Bool
fence_ready ready none = true
fence_ready ready (some fd) = ready fd

-- SyncFds::advance(): the consumed value, and the releases that wait for their fence.
unfoldable pub advance : (ℕ → Bool) → ℕ → List Release → ℕ × List Release
advance ready consumed [] = (consumed, [])
advance ready consumed (r ∷ rs) =
    let rest = advance ready (if ltb consumed r.value then r.value else consumed) rs in
    if fence_ready ready r.fd then rest else (consumed, r ∷ rs)

abbrev pub with_advance : (ℕ → Bool) → Producer → Producer
with_advance ready p =
    let (consumed, waiting) = advance ready p.consumed p.releases in
    record p { consumed = consumed; releases = waiting }

abbrev pub push_back : List Release → Release → List Release
push_back [] x = x ∷ []
push_back (r ∷ rs) x = r ∷ push_back rs x

-- applyRelease()
unfoldable pub apply_release : (ℕ → Bool) → Producer → Message → Producer
unfolding advance
apply_release ready p other_type = p
apply_release ready p (frame_released r) =
    with_advance ready (record p { releases = push_back p.releases r })

-- drainProducerMessages(), with what poll() says while each message is applied. The list has the messages
-- up to where the source finds none: a consumer that always has one queued keeps its loop going, and
-- such a call is not modelled.
unfoldable pub drain : Producer → List ((ℕ → Bool) × Message) → Producer
unfolding apply_release
drain p [] = p
drain p (m ∷ ms) = drain (apply_release m.0 p m.1) ms

-- One round of the wait in flAcquireBuffer: the messages that are queued, whether the link is up behind
-- them, and what poll() says of the fences.
pub record Round : Type 0 where
  pub received : List ((ℕ → Bool) × Message)
  pub connected : Bool
  pub ready : ℕ → Bool

-- The first slot from i on that is free and not referenced.
unfoldable pub first_free : References → ℕ → ℕ → List ℕ → Option ℕ
first_free refs consumed i [] = none
first_free refs consumed i (v ∷ vs) =
    let rest = first_free refs consumed (suc i) vs in
    if leb v consumed && not (is_busy refs i) then some i else rest

-- The pin of a slot, with the buffer that is handed out.
abbrev pub reserve : Producer → ℕ → Producer × FlResult × Option Buffer
reserve p i = (
  record p {
    submit_values = set p.submit_values i u64_max;
    slot_metadata = set p.slot_metadata i no_metadata;
  },
  ok,
  some (record { slot = i; image = get_or p.images i 0 }),
)

abbrev pub after_drain : Producer → Round → Producer
after_drain p r = record (drain p r.received) { connected = r.connected }

-- The scan of a round: none where no slot is free.
unfoldable pub take_free : Producer → Option (Producer × FlResult × Option Buffer)
unfolding first_free
take_free p = elim (first_free p.references p.consumed 0 p.submit_values) [
  | none ↦ none
  | some i ↦ some (reserve p i)
]

-- The loop of flAcquireBuffer, on fuel: none where the fuel runs out.
unfoldable pub acquire_loop :
    ℕ → ℕ → ℕ → (ℕ → Round) → Producer → Option (Producer × FlResult × Option Buffer)
acquire_loop zero waited limit rounds p = none
acquire_loop (suc n) waited limit rounds p =
    let q = after_drain p (rounds waited) in
    let q' = with_advance (rounds waited).ready q in
    let rest = acquire_loop n ((waited + 2) % 4294967296) limit rounds q' in
    if not (rounds waited).connected then some (q, disconnected, none) else elim (take_free q') [
      | some taken ↦ some taken
      | none ↦ if leb limit waited then some (q', timeout, none) else rest
    ]

-- flAcquireBuffer of a producer's channel.
unfoldable pub acquire_buffer :
    ℕ → ℕ → (ℕ → Round) → Producer → Option (Producer × FlResult × Option Buffer)
acquire_buffer fuel limit rounds p =
    if not p.connected then some (p, disconnected, none) else acquire_loop fuel 0 limit rounds p

-- Whether the buffer names a slot of the ring that is reserved.
unfoldable pub is_reservation : Producer → Buffer → Bool
is_reservation p b =
    ltb b.slot (length p.images)
    && b.image == get_or p.images b.slot 0
    && get_or p.submit_values b.slot 0 == u64_max

-- flCancelBuffer
unfoldable pub cancel_buffer : Producer → Buffer → Producer × FlResult
cancel_buffer p b =
    if not (is_reservation p b)
    then (p, invalid)
    else if truthy p.submitting_value && p.submitting_slot == b.slot
    then (p, busy)
    else (record p { submit_values = set p.submit_values b.slot 0 }, ok)

-- slotMetadata[buf->slot]
abbrev pub metadata_of : Producer → Buffer → FrameMetadata
metadata_of p b = get_or p.slot_metadata b.slot no_metadata

-- The peer's feature word requires frame metadata.
abbrev pub requires_metadata : ℕ → Bool
requires_metadata features = truthy (framelink.Base.bit_and features 65536)

-- flSetFrameMetadata behind its first checks, by the result of validateMetadata().
abbrev pub write_metadata : Producer → Buffer → FrameMetadata → FlResult → Producer × FlResult
write_metadata p b m ok = (record p { slot_metadata = set p.slot_metadata b.slot m }, ok)
write_metadata p b m r = (p, r)

-- flSetFrameMetadata
unfoldable pub set_frame_metadata : Producer → Buffer → FrameMetadata → Producer × FlResult
set_frame_metadata p b m =
    if not (is_reservation p b)
    then (p, invalid)
    else if truthy p.submitting_value
    then (p, busy)
    else if not (truthy (framelink.Base.bit_and p.peer_features metadata_feature))
    then (p, format_unsupported)
    else write_metadata p b m (validate_metadata m)

-- flBeginSubmit
unfoldable pub begin_submit : Producer → Buffer → Producer × FlResult × Option ℕ
begin_submit p b =
    if not (is_reservation p b)
    then (p, invalid, none)
    else if not p.connected
    then (p, disconnected, none)
    else if truthy p.submitting_value
    then (p, busy, none)
    else if requires_metadata p.peer_features && (metadata_of p b).version == 0
    then (p, format_unsupported, none)
    else if leb (u64_max - 1) p.ready_value
    then (p, invalid, none)
    else (
      record p {
        submitting_slot = b.slot;
        submitting_value = p.ready_value + 1;
        ready_value = p.ready_value + 1;
      },
      ok,
      some (p.ready_value + 1),
    )

-- flEndSubmit, with the message that it sends; `sent` is whether the link takes it: a link
-- that fails to is down.
unfoldable pub end_submit :
    Bool → Producer → Buffer → ℕ → ℤ → Producer × FlResult × Option FrameMessage
end_submit sent p b value pts =
    if not (is_reservation p b)
      || value == 0
      || not (value == p.submitting_value)
      || not (b.slot == p.submitting_slot)
    then (p, invalid, none)
    else if not p.connected
    then (p, disconnected, none)
    else (
      record p {
        submit_values = set p.submit_values b.slot value;
        submitting_value = 0;
        submitting_slot = no_slot;
        connected = sent && p.connected;
      },
      (if sent then ok else disconnected),
      some
          (frame_message (record { slot = b.slot; value = value; pts_ns = pts }) (metadata_of p b)),
    )

-- The call of flEndSubmit in flSubmit, by the result of flBeginSubmit.
abbrev pub end_begun :
    Bool → Buffer → ℤ → Producer × FlResult × Option ℕ → Producer × FlResult × Option FrameMessage
end_begun sent b pts (p, ok, some value) = end_submit sent p b value pts
end_begun sent b pts (p, r, o) = (p, r, none)

-- flSubmit
unfoldable pub submit : Bool → Producer → Buffer → ℤ → Producer × FlResult × Option FrameMessage
unfolding begin_submit end_submit
submit sent p b pts = end_begun sent b pts (begin_submit p b)

-- flSubmitSyncFd behind the call of flBeginSubmit, by what that returned.
abbrev pub publish_begun :
    Bool → Buffer → ℤ → Producer × FlResult × Option ℕ → Producer × FlResult × Option FrameMessage
publish_begun sent b pts (p, ok, some value) = (
  record p {
    submit_values = set p.submit_values b.slot value;
    submitting_value = 0;
    submitting_slot = no_slot;
    connected = sent && p.connected;
  },
  (if sent then ok else disconnected),
  some (frame_message (record { slot = b.slot; value = value; pts_ns = pts }) (metadata_of p b)),
)
publish_begun sent b pts (p, r, o) = (p, r, none)

-- Whether the buffer names a slot of the ring.
abbrev pub in_ring : Producer → Buffer → Bool
in_ring p b = ltb b.slot (length p.images) && b.image == get_or p.images b.slot 0

-- flSubmitSyncFd; the fence's descriptor goes along with the message.
unfoldable pub submit_sync_fd :
    Bool → Producer → Buffer → ℤ → Producer × FlResult × Option FrameMessage
unfolding begin_submit
submit_sync_fd sent p b pts =
    if not (in_ring p b)
    then (p, invalid, none)
    else if not p.connected
    then (p, disconnected, none)
    else publish_begun sent b pts (begin_submit p b)

-- flRetainBufferReference
unfoldable pub retain_buffer : Producer → Buffer → Producer × FlResult × Option ℕ
retain_buffer p b =
    if not (is_reservation p b)
    then (p, invalid, none)
    else let (refs, r, token) = framelink.References.retain_reference p.references b.slot in
      (record p { references = refs }, r, token)

-- flReleaseBufferReference
unfoldable pub release_buffer : Producer → ℕ → Producer × FlResult
release_buffer p token =
    let (refs, r) = framelink.References.release_reference p.references token in
    (record p { references = refs }, r)
