-- ===== src/Consumer/Frames.antt =====
-- How a frame reaches the caller of flAcquireFrame in src/framelink_linux.cpp, and when its ring may change.
use framelink.Base.{
  ℕ, zero, suc, ◌+◌, ◌*◌, ◌/◌, ◌%◌, ◌≤◌, ◌<◌, ◌≡◌, ◌≢◌, Bool, true, false, Option, none, some, leb,
  if◌then◌else◌, arith, Bool-cases, inl, inr, ◌⊎◌,
}
use framelink.Api.{FlResult, ok, disconnected, Frame}
use framelink.Ledger.{empty}
use framelink.Consumer.{Consumer, receive_all, take_frame, FrameRound, frame_loop, acquire_frame}

-- The ring of a consumer, with what is leased, held or read of it.
pub record Undisturbed (c d : Consumer) : Type 0 where
  pub info : d.info ≡ c.info
  pub images : d.images ≡ c.images
  pub dmabufs : d.dmabufs ≡ c.dmabufs
  pub readers : d.readers ≡ c.readers
  pub frame_held : d.frame_held ≡ c.frame_held
  pub held_slot : d.held_slot ≡ c.held_slot
  pub held_ready : d.held_ready ≡ c.held_ready
  pub held_fd : d.held_fd ≡ c.held_fd

-- Where a frame of the ring is leased or held, or the last one that was taken is not read to the end.
abbrev pub InUse : Consumer → Type 0
InUse c = (empty c.readers ≡ false) ⊎ ((c.frame_held ≡ true) ⊎ (c.retired < c.held_ready))

frame_loop_ends :
    (fuel waited limit : ℕ) (rounds : ℕ → FrameRound) (c : Consumer)
    → limit + 2 ≤ waited + 2 * fuel
    → waited ≤ limit + 1
    → limit < 4294967295
    → frame_loop fuel waited limit rounds c ≢ none
unfolding frame_loop
frame_loop_ends zero waited limit rounds c enough early small =
    absurd (omega (arith, enough, early))
frame_loop_ends (suc n) waited limit rounds c enough early small =
    let c' = receive_all c (rounds waited).incoming in
    Ends_or (take_frame (rounds waited).ready c') _ (
      Ends_if c'.peer_gone (some (c', disconnected, none)) _ (λ e. cc e)
        (elim (Bool-cases (leb limit waited)) [
          | inl late ↦ rw late (λ e. cc e)
          | inr more ↦ rw more (
              frame_loop_ends n ((waited + 2) % 4294967296) limit rounds c' (enough_left more)
                (still_early more) small)
        ]))
  where
    Ends_if :
        (b : Bool) (x y : Option (Consumer × FlResult × Option Frame))
        → x ≢ none
        → y ≢ none
        → (if b then x else y) ≢ none
    Ends_if true x y h k = h
    Ends_if false x y h k = k

    Ends_or :
        (x : Option (Consumer × Frame)) (y : Option (Consumer × FlResult × Option Frame))
        → y ≢ none
        → elim x [ some (d, f) ↦ some (d, ok, some f) | none ↦ y ] ≢ none
    Ends_or none y k = k
    Ends_or (some x) y k = λ e. cc e

    enough_left : leb limit waited ≡ false → limit + 2 ≤ (waited + 2) % 4294967296 + 2 * n
    enough_left h = ground (arith, h, enough, small)

    still_early : leb limit waited ≡ false → (waited + 2) % 4294967296 ≤ limit + 1
    still_early h = ground (arith, h, small)

-- The wait for a frame ends: with a timeout below UINT32_MAX milliseconds, one round for every two
-- of them and two more are enough, whatever the producer sends.
pub acquire_frame_ends :
    (fuel limit : ℕ) (rounds : ℕ → FrameRound) (c : Consumer)
    → limit < 4294967295
    → limit / 2 + 2 ≤ fuel
    → acquire_frame fuel limit rounds c ≢ none
unfolding acquire_frame
acquire_frame_ends fuel limit rounds c small enough =
    frame_loop_ends fuel 0 limit rounds c (omega (arith, enough)) (omega arith) small
