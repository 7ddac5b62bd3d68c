-- ===== src/System/Invariant.antt =====
-- What the halves of a channel of src/framelink_linux.cpp agree on, whatever is under way between them.
use framelink.Base.{
  ℕ, ◌+◌, ◌≤◌, ◌<◌, ◌≡◌, sym, subst, Bool, List, [], ◌∷◌, ◌==◌, if◌then◌else◌, length, All, inl,
  inr,
}
use framelink.Api.{u64_max}
use framelink.Metadata.{FrameMetadata, Announced}
use framelink.Producer.{Producer, Message, frame_released, other_type}
use framelink.Producer.Submitted.{AreBelow, IsSubmitted, MessageBelow}
use framelink.Producer.Ownership.{
  Action, acquires, ends, submits_sync_fd, cancels, begins, sets_metadata, retains_buffer,
  releases_buffer, ActionBelow,
}
use framelink.Consumer.{Consumer}
use framelink.Consumer.Timeline.{Timeline, IsBelow, Owned, newest}
use framelink.System.{System, Among, MessageFrom, IsQuiet}

-- The value under which the next frame will be sent: that of the submission that was begun, if any.
abbrev pub next_value : Producer → ℕ
next_value p = if p.submitting_value == 0 then p.ready_value + 1 else p.submitting_value

-- Frames under way have rising values between lo and hi.
abbrev pub Rising : ℕ → ℕ → List (Announced × FrameMetadata) → Type 0
Rising lo hi [] = lo < hi
Rising lo hi ((a, m) ∷ xs) = (lo < a.value) × Rising a.value hi xs

-- The producer's values are in order.
pub record Counts (p : Producer) : Type 0 where
  pub begun : p.submitting_value ≤ p.ready_value
  pub publishable : p.submitting_value < u64_max
  pub consumed : p.consumed < next_value p
  pub waiting : AreBelow (next_value p) p.releases
  pub sized : length p.submit_values ≡ length p.images

-- A slot belongs to the consumer under a value.
abbrev pub IsLent : Producer → ℕ → ℕ → Type 0
IsLent p i v = IsSubmitted p i v

pub record Agree (s : System) : Type 0 where
  pub counts : Counts s.producer
  pub timeline : Timeline s.consumer
  -- what the consumer told is below its frames
  pub below : All (λ w. IsBelow w s.consumer) s.told
  -- frames under way are newer than those received
  pub rising : Rising (newest s.consumer) (next_value s.producer) s.queue
  pub queued : All (λ x. IsLent s.producer x.0.slot x.0.value) s.queue
  pub owned : Owned (IsLent s.producer) s.consumer

-- What was told is below a value that is newer than the frames held.
pub Among-IsBelow :
    (c : Consumer) (told : List ℕ) (w : ℕ)
    → All (λ w. IsBelow w c) told
    → Among w told
    → IsBelow w c
Among-IsBelow c [] w b h = elim h [ ]
Among-IsBelow c (x ∷ xs) w (b, bs) (inl e) = subst (λ n. IsBelow n c) (sym e) b
Among-IsBelow c (x ∷ xs) w (b, bs) (inr h) = Among-IsBelow c xs w bs h

-- Messages whose values were told are below a value that all of these are below.
pub RoundFrom-RoundBelow :
    (v : ℕ) (told : List ℕ)
    → ((w : ℕ) → Among w told → w < v)
    → (ms : List ((ℕ → Bool) × Message)) → All (λ m. MessageFrom told m.1) ms
    → All (λ m. MessageBelow v m.1) ms
RoundFrom-RoundBelow v told below [] h = tt
RoundFrom-RoundBelow v told below ((ready, other_type) ∷ ms) (h, hs) =
    (tt, RoundFrom-RoundBelow v told below ms hs)
RoundFrom-RoundBelow v told below ((ready, frame_released r) ∷ ms) (h, hs) =
    (below r.value h, RoundFrom-RoundBelow v told below ms hs)

-- A quiet call receives only what is below a value that all that was told is below.
pub quiet-ActionBelow :
    (told : List ℕ) (a : Action) (v : ℕ)
    → IsQuiet told a
    → ((w : ℕ) → Among w told → w < v)
    → ActionBelow v a
quiet-ActionBelow told (acquires fuel limit rounds) v quiet below =
    λ w. RoundFrom-RoundBelow v told below (rounds w).received (quiet w)
quiet-ActionBelow told (cancels b) v quiet below = tt
quiet-ActionBelow told (begins b) v quiet below = tt
quiet-ActionBelow told (ends sent b value pts) v quiet below = tt
quiet-ActionBelow told (sets_metadata b m) v quiet below = tt
quiet-ActionBelow told (submits_sync_fd sent b pts) v quiet below = tt
quiet-ActionBelow told (retains_buffer b) v quiet below = tt
quiet-ActionBelow told (releases_buffer t) v quiet below = tt
