-- ===== src/Metadata/Exchange.antt =====
-- The agreement of two peers of src/fl_metadata.hpp, and the round trip of a frame between them.
use framelink.Base.{
  ℕ, ◌/◌, ◌≡◌, refl, sym, ap, subst, Bool, true, false, not, none, some, truthy, if◌then◌else◌,
  bit_and, arith, inl, inr, ◌↔◌, ◌⊎◌, &&_true,
}
use framelink.Base.Masks.{without, Within, without-zero, IsWord, and-le}
use framelink.Api.{FlResult, ok}
use framelink.Metadata.{
  FrameMetadata, Announced, FrameMessage, frame_ready, frame_ready_metadata, other_message,
  no_metadata, compatible_features, validate_metadata, accept_metadata, decode_frame, frame_message,
}

zero_of_not : (n : ℕ) → (not (truthy n) ≡ true) ↔ (n ≡ 0)
zero_of_not n = (λ h. ground (arith, h), λ h. ground (arith, h))

-- Two channels agree exactly when the features that each requires, the upper half of its word, are
-- among those that the other supports, the lower half of the other's word.
pub compatible_features-Within :
    (local peer : ℕ)
    → IsWord local
    → IsWord peer
    → (compatible_features local peer ≡ true) ↔ (
        Within (local / 65536) (bit_and peer 0xffff) × Within (peer / 65536) (bit_and local 0xffff))
unfolding compatible_features
compatible_features-Within local peer wl wp =
    let mine =
      without-zero (local / 65536) (bit_and peer 0xffff) (omega (arith, wl))
        (omega (arith, wp, and-le peer 0xffff)) in
    let theirs =
      without-zero (peer / 65536) (bit_and local 0xffff) (omega (arith, wp))
        (omega (arith, wl, and-le local 0xffff)) in
    let l = zero_of_not (without (local / 65536) (bit_and peer 0xffff)) in
    let r = zero_of_not (without (peer / 65536) (bit_and local 0xffff)) in
    (
      λ h. let (a, b) = &&_true _ _ h in (mine.0 (l.0 a), theirs.0 (r.0 b)),
      λ (a, b). rw (l.1 (mine.1 a), r.1 (theirs.1 b)) refl,
    )

versioned : (m : FrameMetadata) → validate_metadata m ≡ ok → truthy m.version ≡ true
unfolding validate_metadata
versioned m h = ground (arith, h)

-- A frame arrives as it was sent: with valid metadata always, and without metadata where the receiver
-- does not require it.
pub decode_frame-frame_message :
    (required : Bool) (a : Announced) (m : FrameMetadata)
    → validate_metadata m ≡ ok
    → (decode_frame required (frame_message a m) ≡ some (a, m))
      × (decode_frame required (frame_message a no_metadata)
          ≡ (if required then none else some (a, no_metadata)))
unfolding decode_frame frame_message
decode_frame-frame_message required a m valid =
    (rw (versioned m valid, decode_frame) (rw valid refl), refl)

-- A receiver accepts only what a sender writes: the message of a frame with valid metadata, or without
-- any where none is required.
pub frame_message-decode_frame :
    (required : Bool) (x : FrameMessage) (a : Announced) (m : FrameMetadata)
    → decode_frame required x ≡ some (a, m)
    → (x ≡ frame_message a m)
      × ((validate_metadata m ≡ ok) ⊎ ((required ≡ false) × (m ≡ no_metadata)))
unfolding decode_frame frame_message
frame_message-decode_frame required (frame_ready (some b)) a m h = plain required h
  where
    plain :
        (required : Bool)
        → decode_frame required (frame_ready (some b)) ≡ some (a, m)
        → (frame_ready (some b) ≡ frame_message a m)
          × ((validate_metadata m ≡ ok) ⊎ ((required ≡ false) × (m ≡ no_metadata)))
    plain true h = cc h
    plain false h =
        let e : ◌≡◌ {A = Announced × FrameMetadata} (b, no_metadata) (a, m) = cc in
        (
          subst (λ p. frame_ready (some b) ≡ frame_message p.0 p.1) e refl,
          inr (refl, sym (ap (λ p. p.1) e)),
        )
frame_message-decode_frame required (frame_ready_metadata (some (b, n))) a m h =
    checked (validate_metadata n) refl h
  where
    checked :
        (r : FlResult)
        → validate_metadata n ≡ r
        → accept_metadata r (b, n) ≡ some (a, m)
        → (frame_ready_metadata (some (b, n)) ≡ frame_message a m)
          × ((validate_metadata m ≡ ok) ⊎ ((required ≡ false) × (m ≡ no_metadata)))
    checked ok v h =
        let e : ◌≡◌ {A = Announced × FrameMetadata} (b, n) (a, m) = cc in
        subst
          (λ p.
            (frame_ready_metadata (some (b, n)) ≡ frame_message p.0 p.1)
            × ((validate_metadata p.1 ≡ ok) ⊎ ((required ≡ false) × (p.1 ≡ no_metadata))))
          e (rw (versioned n v) refl, inl v)
    checked r v h = ground (arith, h)
frame_message-decode_frame required (frame_ready none) a m h = cc h
frame_message-decode_frame required (frame_ready_metadata none) a m h = cc h
frame_message-decode_frame required other_message a m h = cc h
