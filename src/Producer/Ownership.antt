-- ===== src/Producer/Ownership.antt =====
-- Ownership of the slots that src/framelink_linux.cpp hands to the producer: a submitted slot stays
-- with the consumer until its value is released.
use framelink.Base.{
  ℕ, ◌+◌, ◌<◌, ◌≡◌, ◌≢◌, refl, sym, ap, subst, ◌∙◌, Bool, true, false, ◌&&◌, Option, none, some,
  List, [], ◌∷◌, ltb, ◌==◌, length, set, get_or, get_or-set_ne, All, arith, Bool-cases, inl, inr,
}
use framelink.Base.Int.{ℤ}
use framelink.Api.{FlResult, ok, u64_max}
use framelink.Metadata.{FrameMetadata}
use framelink.Producer.{
  Producer, Buffer, Round, acquire_buffer, is_reservation, cancel_buffer, begin_submit, end_submit,
  retain_buffer, release_buffer, set_frame_metadata, submit_sync_fd,
}
use framelink.Producer.Submitted.{AreBelow, IsSubmitted, RoundBelow, Kept, acquire_buffer-Kept}

-- A reserved slot is another one than a submitted slot.
reservation_other :
    (p : Producer) (b : Buffer) (i v : ℕ)
    → IsSubmitted p i v
    → is_reservation p b ≡ true
    → b.slot ≢ i
unfolding is_reservation
reservation_other p b i v s r e =
    omega (arith, ap (λ n. get_or p.submit_values n 0) e, s.value, s.published, reserved r)
  where
    reserved :
        (ltb b.slot (length p.images)
            && b.image == get_or p.images b.slot 0
            && get_or p.submit_values b.slot 0 == u64_max)
          ≡ true
        → get_or p.submit_values b.slot 0 ≡ u64_max
    reserved h = ground (arith, h)

-- A call that leaves the values and the releases keeps the slot.
same-IsSubmitted :
    (p q : Producer) (i v : ℕ)
    → q.submit_values ≡ p.submit_values
    → q.consumed ≡ p.consumed
    → q.releases ≡ p.releases
    → IsSubmitted p i v
    → IsSubmitted q i v
same-IsSubmitted p q i v values consumed releases s = record {
  value = ap (λ vs. get_or vs i 0) values ∙ s.value;
  unconsumed = subst (λ c. c < v) (sym consumed) s.unconsumed;
  waiting = subst (AreBelow v) (sym releases) s.waiting;
  published = s.published;
}

cancel_buffer-IsSubmitted :
    (p : Producer) (b : Buffer) (i v : ℕ)
    → IsSubmitted p i v
    → IsSubmitted (cancel_buffer p b).0 i v
unfolding cancel_buffer
cancel_buffer-IsSubmitted p b i v s = elim (Bool-cases (is_reservation p b)) [
  | inr free ↦ same-IsSubmitted p _ i v (unwritten free) consumed releases s
  | inl reserved ↦ record {
    value =
        written (get_or-set_ne p.submit_values b.slot i 0 0 (reservation_other p b i v s reserved));
    unconsumed = subst (λ c. c < v) (sym consumed) s.unconsumed;
    waiting = subst (AreBelow v) (sym releases) s.waiting;
    published = s.published;
  }
]
  where
    unwritten : is_reservation p b ≡ false → (cancel_buffer p b).0.submit_values ≡ p.submit_values
    unwritten free = ground (arith, free)

    written :
        get_or (set p.submit_values b.slot 0) i 0 ≡ get_or p.submit_values i 0
        → get_or (cancel_buffer p b).0.submit_values i 0 ≡ v
    written same = ground (arith, same, s.value)

    consumed : (cancel_buffer p b).0.consumed ≡ p.consumed
    consumed = ground arith

    releases : (cancel_buffer p b).0.releases ≡ p.releases
    releases = ground arith

begin_submit-IsSubmitted :
    (p : Producer) (b : Buffer) (i v : ℕ) → IsSubmitted p i v → IsSubmitted (begin_submit p b).0 i v
unfolding begin_submit
begin_submit-IsSubmitted p b i v s = same-IsSubmitted p _ i v values consumed releases s
  where
    values : (begin_submit p b).0.submit_values ≡ p.submit_values
    values = ground arith

    consumed : (begin_submit p b).0.consumed ≡ p.consumed
    consumed = ground arith

    releases : (begin_submit p b).0.releases ≡ p.releases
    releases = ground arith

retain_buffer-IsSubmitted :
    (p : Producer) (b : Buffer) (i v : ℕ)
    → IsSubmitted p i v
    → IsSubmitted (retain_buffer p b).0 i v
unfolding retain_buffer
retain_buffer-IsSubmitted p b i v s = same-IsSubmitted p _ i v values consumed releases s
  where
    values : (retain_buffer p b).0.submit_values ≡ p.submit_values
    values = ground arith

    consumed : (retain_buffer p b).0.consumed ≡ p.consumed
    consumed = ground arith

    releases : (retain_buffer p b).0.releases ≡ p.releases
    releases = ground arith

pub end_submit-IsSubmitted :
    (sent : Bool) (p : Producer) (b : Buffer) (value : ℕ) (pts : ℤ) (i v : ℕ)
    → IsSubmitted p i v
    → IsSubmitted (end_submit sent p b value pts).0 i v
unfolding end_submit
end_submit-IsSubmitted sent p b value pts i v s = record {
  value = elim (Bool-cases (is_reservation p b)) [
    | inr free ↦ ap (λ vs. get_or vs i 0) (unwritten free) ∙ s.value
    | inl reserved ↦
        written
          (get_or-set_ne p.submit_values b.slot i value 0 (reservation_other p b i v s reserved))
  ];
  unconsumed = subst (λ c. c < v) (sym consumed) s.unconsumed;
  waiting = subst (AreBelow v) (sym releases) s.waiting;
  published = s.published;
}
  where
    unwritten :
        is_reservation p b ≡ false
        → (end_submit sent p b value pts).0.submit_values ≡ p.submit_values
    unwritten free = ground (arith, free)

    written :
        get_or (set p.submit_values b.slot value) i 0 ≡ get_or p.submit_values i 0
        → get_or (end_submit sent p b value pts).0.submit_values i 0 ≡ v
    written same = ground (arith, same, s.value)

    consumed : (end_submit sent p b value pts).0.consumed ≡ p.consumed
    consumed = ground arith

    releases : (end_submit sent p b value pts).0.releases ≡ p.releases
    releases = ground arith

set_frame_metadata-IsSubmitted :
    (p : Producer) (b : Buffer) (m : FrameMetadata) (i v : ℕ)
    → IsSubmitted p i v
    → IsSubmitted (set_frame_metadata p b m).0 i v
unfolding set_frame_metadata
set_frame_metadata-IsSubmitted p b m i v s = same-IsSubmitted p _ i v values consumed releases s
  where
    values : (set_frame_metadata p b m).0.submit_values ≡ p.submit_values
    values = ground arith

    consumed : (set_frame_metadata p b m).0.consumed ≡ p.consumed
    consumed = ground arith

    releases : (set_frame_metadata p b m).0.releases ≡ p.releases
    releases = ground arith

pub submit_sync_fd-IsSubmitted :
    (sent : Bool) (p : Producer) (b : Buffer) (pts : ℤ) (i v : ℕ)
    → IsSubmitted p i v
    → IsSubmitted (submit_sync_fd sent p b pts).0 i v
unfolding submit_sync_fd begin_submit
submit_sync_fd-IsSubmitted sent p b pts i v s = record {
  value = elim (Bool-cases (is_reservation p b)) [
    | inr free ↦ ap (λ vs. get_or vs i 0) (unwritten free) ∙ s.value
    | inl reserved ↦ written (
        get_or-set_ne p.submit_values b.slot i (p.ready_value + 1) 0
          (reservation_other p b i v s reserved))
  ];
  unconsumed = subst (λ c. c < v) (sym consumed) s.unconsumed;
  waiting = subst (AreBelow v) (sym releases) s.waiting;
  published = s.published;
}
  where
    unwritten :
        is_reservation p b ≡ false → (submit_sync_fd sent p b pts).0.submit_values ≡ p.submit_values
    unwritten free = ground (arith, free)

    written :
        get_or (set p.submit_values b.slot (p.ready_value + 1)) i 0 ≡ get_or p.submit_values i 0
        → get_or (submit_sync_fd sent p b pts).0.submit_values i 0 ≡ v
    written same = ground (arith, same, s.value)

    consumed : (submit_sync_fd sent p b pts).0.consumed ≡ p.consumed
    consumed = ground arith

    releases : (submit_sync_fd sent p b pts).0.releases ≡ p.releases
    releases = ground arith

-- The calls of a producer, each with what its environment does.
pub data Action : Type 0 where
  acquires : ℕ → ℕ → (ℕ → Round) → Action
  cancels : Buffer → Action
  begins : Buffer → Action
  ends : Bool → Buffer → ℕ → ℤ → Action
  sets_metadata : Buffer → FrameMetadata → Action
  submits_sync_fd : Bool → Buffer → ℤ → Action
  retains_buffer : Buffer → Action
  releases_buffer : ℕ → Action

abbrev pub acquired_state : Producer → Option (Producer × FlResult × Option Buffer) → Producer
acquired_state p none = p
acquired_state p (some x) = x.0

unfoldable pub act : Producer → Action → Producer
act p (acquires fuel limit rounds) = acquired_state p (acquire_buffer fuel limit rounds p)
act p (cancels b) = (cancel_buffer p b).0
act p (begins b) = (begin_submit p b).0
act p (ends sent b value pts) = (end_submit sent p b value pts).0
act p (sets_metadata b m) = (set_frame_metadata p b m).0
act p (submits_sync_fd sent b pts) = (submit_sync_fd sent p b pts).0
act p (retains_buffer b) = (retain_buffer p b).0
act p (releases_buffer t) = (release_buffer p t).0

unfoldable pub act_all : Producer → List Action → Producer
unfolding act
act_all p [] = p
act_all p (a ∷ acts) = act_all (act p a) acts

-- The releases that the consumer sends during the call are below v.
abbrev pub ActionBelow : ℕ → Action → Type 0
ActionBelow v (acquires fuel limit rounds) = (w : ℕ) → RoundBelow v (rounds w)
ActionBelow v _ = Unit

pub act-IsSubmitted :
    (p : Producer) (a : Action) (i v : ℕ)
    → IsSubmitted p i v
    → ActionBelow v a
    → IsSubmitted (act p a) i v
unfolding act release_buffer
act-IsSubmitted p (acquires fuel limit rounds) i v s below =
    state p (acquire_buffer fuel limit rounds p) s
      (acquire_buffer-Kept fuel limit rounds p i v s below)
  where
    state :
        (p : Producer) (o : Option (Producer × FlResult × Option Buffer))
        → IsSubmitted p i v
        → Kept i v o
        → IsSubmitted (acquired_state p o) i v
    state p none s k = s
    state p (some x) s k = k.0
act-IsSubmitted p (cancels b) i v s below = cancel_buffer-IsSubmitted p b i v s
act-IsSubmitted p (begins b) i v s below = begin_submit-IsSubmitted p b i v s
act-IsSubmitted p (ends sent b value pts) i v s below =
    end_submit-IsSubmitted sent p b value pts i v s
act-IsSubmitted p (sets_metadata b m) i v s below = set_frame_metadata-IsSubmitted p b m i v s
act-IsSubmitted p (submits_sync_fd sent b pts) i v s below =
    submit_sync_fd-IsSubmitted sent p b pts i v s
act-IsSubmitted p (retains_buffer b) i v s below = retain_buffer-IsSubmitted p b i v s
act-IsSubmitted p (releases_buffer t) i v s below = same-IsSubmitted p _ i v refl refl refl s

act_all-IsSubmitted :
    (p : Producer) (acts : List Action) (i v : ℕ)
    → IsSubmitted p i v
    → All (ActionBelow v) acts
    → IsSubmitted (act_all p acts) i v
unfolding act_all
act_all-IsSubmitted p [] i v s below = s
act_all-IsSubmitted p (a ∷ acts) i v s below =
    act_all-IsSubmitted (act p a) acts i v (act-IsSubmitted p a i v s below.0) below.1

-- A slot that was submitted under the value v is not handed out again, whatever buffers the
-- producer acquires, cancels, describes, submits, retains and releases, as long as each value that the
-- consumer released or releases is below v.
pub acquire_buffer-act_all :
    (p q : Producer) (acts : List Action) (i v fuel limit : ℕ) (rounds : ℕ → Round) (b : Buffer)
    → IsSubmitted p i v
    → All (ActionBelow v) acts
    → ((w : ℕ) → RoundBelow v (rounds w))
    → acquire_buffer fuel limit rounds (act_all p acts) ≡ some (q, ok, some b)
    → b.slot ≢ i
acquire_buffer-act_all p q acts i v fuel limit rounds b s below now granted =
    (subst (Kept i v) granted (
      acquire_buffer-Kept fuel limit rounds (act_all p acts) i v
        (act_all-IsSubmitted p acts i v s below) now)).1
