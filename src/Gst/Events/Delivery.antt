-- ===== src/Gst/Events/Delivery.antt =====
-- What readLoop() of src/gst/fl_gst_event_channel.hpp makes of a message that send() writes.
use framelink.Base.{
  ℕ, ◌+◌, ◌*◌, ◌^◌, ◌≤◌, ◌<◌, ◌≡◌, refl, ap, ◌∙◌, subst, true, false, List, [], ◌++◌, length, drop,
  drop-append, drop-drop, replicate, arith,
}
use framelink.Api.{u64_max}
use framelink.Session.{same_id}
use framelink.Gst.Events.{
  VideoEvent, BigEndian, EventChannel, event_magic, valid_event, event_message, read_event,
  bad_message,
}

drop_past : (n : ℕ) (xs ys : List ℕ) → length xs ≡ n → drop n (xs ++ ys) ≡ ys
drop_past n xs ys e = subst (λ k. drop k (xs ++ ys) ≡ ys) e (drop-append xs ys)

-- The fields that `valid` bounds fit in their C types; the frame count is a `guint64`.
abbrev pub IsBounded : VideoEvent → Type 0
IsBounded e = e.after_frames < 2 ^ 64

module _ (be : BigEndian) (g : ℕ) (e : VideoEvent) (s : ℕ) where
  open be use {write, read}

  abbrev t7 : List ℕ
  t7 = write 8 s ++ replicate 8 0

  abbrev t6 : List ℕ
  t6 = write 8 e.duration_ns ++ t7

  abbrev t5 : List ℕ
  t5 = write 8 e.pts_ns ++ t6

  abbrev t4 : List ℕ
  t4 = write 8 e.after_frames ++ t5

  abbrev t3 : List ℕ
  t3 = replicate 4 0 ++ t4

  abbrev t2 : List ℕ
  t2 = write 4 e.kind ++ t3

  abbrev t1 : List ℕ
  t1 = write 8 g ++ t2

  abbrev wire : List ℕ
  wire = event_magic ++ t1

  -- The next field starts where the one before it ends.
  next :
      (at n : ℕ) (xs ys : List ℕ)
      → drop at wire ≡ xs ++ ys
      → length xs ≡ n
      → drop (at + n) wire ≡ ys
  next at n xs ys e l = drop-drop at n wire ∙ ap (drop n) e ∙ drop_past n xs ys l

  at_kind : drop 16 wire ≡ t2
  at_kind = next 8 8 (write 8 g) t2 refl (be.length-write 8 g)

  at_zeros : drop 20 wire ≡ t3
  at_zeros = next 16 4 (write 4 e.kind) t3 at_kind (be.length-write 4 e.kind)

  at_after : drop 24 wire ≡ t4
  at_after = next 20 4 (replicate 4 0) t4 at_zeros refl

  at_pts : drop 32 wire ≡ t5
  at_pts = next 24 8 (write 8 e.after_frames) t5 at_after (be.length-write 8 e.after_frames)

  at_duration : drop 40 wire ≡ t6
  at_duration = next 32 8 (write 8 e.pts_ns) t6 at_pts (be.length-write 8 e.pts_ns)

  at_serial : drop 48 wire ≡ t7
  at_serial = next 40 8 (write 8 e.duration_ns) t7 at_duration (be.length-write 8 e.duration_ns)

  at_end : drop 56 wire ≡ replicate 8 0 ++ []
  at_end = next 48 8 (write 8 s) (replicate 8 0) at_serial (be.length-write 8 s)

  module _ (valid : valid_event e ≡ true) (bounded : IsBounded e) where
    fits : (e.kind < 2 ^ (8 * 4)) × (e.pts_ns < 2 ^ (8 * 8)) × (e.duration_ns < 2 ^ (8 * 8))
    unfolding valid_event
    fits = ground (arith, valid)

    read-kind : read 4 (drop 16 wire) ≡ e.kind
    read-kind = ap (read 4) at_kind ∙ be.read-write 4 e.kind t3 fits.0

    read-after : read 8 (drop 24 wire) ≡ e.after_frames
    read-after = ap (read 8) at_after ∙ be.read-write 8 e.after_frames t5 bounded

    read-pts : read 8 (drop 32 wire) ≡ e.pts_ns
    read-pts = ap (read 8) at_pts ∙ be.read-write 8 e.pts_ns t6 fits.1

    read-duration : read 8 (drop 40 wire) ≡ e.duration_ns
    read-duration = ap (read 8) at_duration ∙ be.read-write 8 e.duration_ns t7 fits.2

    pub read_event-message : read_event be (event_message be g e s) ≡ e
    unfolding read_event event_message
    read_event-message i = record {
      kind = read-kind i;
      after_frames = read-after i;
      pts_ns = read-pts i;
      duration_ns = read-duration i;
    }

    pub bad_message-message :
        (c : EventChannel)
        → g ≡ c.generation
        → g < 2 ^ 64
        → s ≡ c.serial + 1
        → s ≤ u64_max
        → bad_message be c (event_message be g e s) ≡ false
    unfolding bad_message event_message same_id
    bad_message-message c eg hg es hs =
        let generation : read 8 (drop 8 wire) ≡ g = be.read-write 8 g t2 hg in
        let zeros : read 4 (drop 20 wire) ≡ 0 = ap (read 4) at_zeros ∙ be.read_zeros 4 t4 in
        let serial : read 8 (drop 48 wire) ≡ s =
          ap (read 8) at_serial ∙ be.read-write 8 s (replicate 8 0) (omega (arith, hs)) in
        let last : read 8 (drop 56 wire) ≡ 0 = ap (read 8) at_end ∙ be.read_zeros 8 [] in
        ground (arith, generation, zeros, serial, last, eg, es, hs)
