-- ===== src/Producer/Acquisition.antt =====
-- What flAcquireBuffer of src/framelink_linux.cpp keeps of its producer: whatever each of its steps keeps.
use framelink.Base.{
  ℕ, zero, suc, ◌+◌, ◌%◌, ◌<◌, Bool, true, false, not, Option, none, some, List, [], ◌∷◌, leb,
  if◌then◌else◌, All, Option-cases, inl, inr,
}
use framelink.Api.{FlResult, disconnected, timeout}
use framelink.Producer.{
  Release, Producer, Buffer, Message, frame_released, other_type, Round, with_advance, push_back,
  apply_release, drain, first_free, take_free, reserve, after_drain, acquire_loop, acquire_buffer,
}
use framelink.Producer.Submitted.{MessageBelow, RoundBelow}
use framelink.Producer.Ownership.{acquired_state}

module _ (P : Producer → Type 0) (v : ℕ)
    (advanced : (p : Producer) (ready : ℕ → Bool) → P p → P (with_advance ready p))
    (pushed : (p : Producer) (r : Release)
      → r.value < v
      → P p
      → P (record p { releases = push_back p.releases r }))
    (linked : (p : Producer) (b : Bool) → P p → P (record p { connected = b }))
    (reserved : (p : Producer) (i : ℕ) → P p → P (reserve p i).0) where
  drain-keeps :
      (p : Producer) (ms : List ((ℕ → Bool) × Message))
      → P p
      → All (λ m. MessageBelow v m.1) ms
      → P (drain p ms)
  unfolding drain apply_release
  drain-keeps p [] h below = h
  drain-keeps p ((ready, other_type) ∷ ms) h below = drain-keeps p ms h below.1
  drain-keeps p ((ready, frame_released r) ∷ ms) h below =
      drain-keeps (apply_release ready p (frame_released r)) ms
        (advanced (record p { releases = push_back p.releases r }) ready (pushed p r below.0 h))
        below.1

  -- What an acquisition keeps, where it ends.
  abbrev Given : Option (Producer × FlResult × Option Buffer) → Type 0
  Given none = Unit
  Given (some x) = P x.0

  Given-if :
      (b : Bool) (x y : Option (Producer × FlResult × Option Buffer))
      → Given x
      → Given y
      → Given (if b then x else y)
  Given-if true x y h k = h
  Given-if false x y h k = k

  Given-or :
      (x y : Option (Producer × FlResult × Option Buffer))
      → Given x
      → Given y
      → Given (elim x [ some taken ↦ some taken | none ↦ y ])
  Given-or none y h k = k
  Given-or (some x) y h k = h

  take_free-Given : (p : Producer) → P p → Given (take_free p)
  unfolding take_free
  take_free-Given p h = elim (Option-cases (first_free p.references p.consumed 0 p.submit_values)) [
    | inl nothing ↦ rw (nothing, Given) tt
    | inr (j, found) ↦ rw (found, Given) (reserved p j h)
  ]

  acquire_loop-Given :
      (fuel waited limit : ℕ) (rounds : ℕ → Round) (p : Producer)
      → P p
      → ((w : ℕ) → RoundBelow v (rounds w))
      → Given (acquire_loop fuel waited limit rounds p)
  unfolding acquire_loop
  acquire_loop-Given zero waited limit rounds p h below = tt
  acquire_loop-Given (suc n) waited limit rounds p h below =
      let q = after_drain p (rounds waited) in
      let drained : P q =
        linked (drain p (rounds waited).received) (rounds waited).connected
          (drain-keeps p (rounds waited).received h (below waited)) in
      let q' = with_advance (rounds waited).ready q in
      let ready : P q' = advanced q (rounds waited).ready drained in
      Given-if (not (rounds waited).connected) (some (q, disconnected, none)) _ drained (
        Given-or (take_free q') _ (take_free-Given q' ready) (
          Given-if (leb limit waited) (some (q', timeout, none)) _ ready
            (acquire_loop-Given n ((waited + 2) % 4294967296) limit rounds q' ready below)))

  -- An acquisition during which releases below v arrive keeps what its steps keep.
  pub acquire_buffer-keeps :
      (fuel limit : ℕ) (rounds : ℕ → Round) (p : Producer)
      → P p
      → ((w : ℕ) → RoundBelow v (rounds w))
      → P (acquired_state p (acquire_buffer fuel limit rounds p))
  unfolding acquire_buffer
  acquire_buffer-keeps fuel limit rounds p h below = ended _ (
      Given-if (not p.connected) (some (p, disconnected, none)) (acquire_loop fuel 0 limit rounds p)
        h (acquire_loop-Given fuel 0 limit rounds p h below))
    where
      ended : (o : Option (Producer × FlResult × Option Buffer)) → Given o → P (acquired_state p o)
      ended none k = h
      ended (some x) k = k
