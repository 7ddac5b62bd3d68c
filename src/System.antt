-- ===== src/System.antt =====
-- Both halves of a channel of src/framelink_linux.cpp on one ring: the producer's calls, the consumer's calls,
-- and the frames and releases that are under way between them, in any order.
pub mod Invariant
pub mod Producing
pub mod Steps
pub mod Safety
pub mod Start
use framelink.Base.{
  ℕ, ◌+◌, ◌<◌, ◌≡◌, ◌⊎◌, Bool, true, Option, none, some, List, [], ◌∷◌, All, get_or,
}
use framelink.Base.Int.{ℤ}
use framelink.Api.{FlResult, ok}
use framelink.Metadata.{FrameMetadata, Announced, frame_message}
use framelink.Producer.{
  Release, Producer, Buffer, Message, frame_released, other_type, Round, end_submit, submit_sync_fd,
  metadata_of,
}
use framelink.Producer.Ownership.{Action, acquires, ends, submits_sync_fd, act}
use framelink.Consumer.{Consumer, receive_frame}
use framelink.Consumer.Calls.{ConsumerCall, consume, MayCall}

-- `queue` has the frames that were sent and not yet received, `told` the values that the consumer has
-- released so far.
pub record System : Type 0 where
  pub producer : Producer
  pub consumer : Consumer
  pub queue : List (Announced × FrameMetadata)
  pub told : List ℕ

abbrev pub Among : ℕ → List ℕ → Type 0
Among w [] = ⊥
Among w (x ∷ xs) = (w ≡ x) ⊎ Among w xs

-- The releases that the producer receives were sent by the consumer.
abbrev pub MessageFrom : List ℕ → Message → Type 0
MessageFrom told other_type = Unit
MessageFrom told (frame_released r) = Among r.value told

abbrev pub RoundFrom : List ℕ → Round → Type 0
RoundFrom told r = All (λ m. MessageFrom told m.1) r.received

-- A producer's call that submits no frame, and receives what the consumer sent.
abbrev pub IsQuiet : List ℕ → Action → Type 0
IsQuiet told (acquires fuel limit rounds) = (w : ℕ) → RoundFrom told (rounds w)
IsQuiet told (ends sent b value pts) = ⊥
IsQuiet told (submits_sync_fd sent b pts) = ⊥
IsQuiet told _ = Unit

abbrev pub enqueue :
    List (Announced × FrameMetadata) → Announced × FrameMetadata → List (Announced × FrameMetadata)
enqueue [] x = x ∷ []
enqueue (y ∷ ys) x = y ∷ enqueue ys x

-- The frame that flEndSubmit or flSubmitSyncFd announces.
abbrev pub submission : Producer → Buffer → ℕ → ℤ → Announced × FrameMetadata
submission p b value pts = (record { slot = b.slot; value = value; pts_ns = pts }, metadata_of p b)

-- The frames under way behind a submission, by its result: a frame that is refused, or that the link does not
-- take, is not under way.
abbrev pub announce :
    FlResult
    → List (Announced × FrameMetadata)
    → Announced × FrameMetadata
    → List (Announced × FrameMetadata)
announce ok xs x = enqueue xs x
announce _ xs x = xs

-- The values of the releases that the consumer has sent, with that of a call.
abbrev pub tell : List ℕ → Option Release → List ℕ
tell told none = told
tell told (some r) = r.value ∷ told

-- A step of either half. The caller of a consumer keeps its duty (MayCall).
pub data Step : System → System → Type 0 where
  produces :
      (s : System) (a : Action)
      → IsQuiet s.told a
      → Step s (record s { producer = act s.producer a })
  submits :
      (s : System) (sent : Bool) (b : Buffer) (value : ℕ) (pts : ℤ)
      → Step s (record s {
        producer = (end_submit sent s.producer b value pts).0;
        queue =
            announce
              (end_submit sent s.producer b value pts).1
              s.queue
              (submission s.producer b value pts);
      })
  submits_fence :
      (s : System) (sent : Bool) (b : Buffer) (pts : ℤ)
      → Step s (record s {
        producer = (submit_sync_fd sent s.producer b pts).0;
        queue =
            announce
              (submit_sync_fd sent s.producer b pts).1
              s.queue
              (submission s.producer b (s.producer.ready_value + 1) pts);
      })
  receives :
      (s : System) (x : Announced × FrameMetadata) (rest : List (Announced × FrameMetadata))
      (now : ℕ) (fds : List ℕ)
      → s.queue ≡ x ∷ rest
      → Step s (record s {
        consumer = receive_frame now s.consumer (frame_message x.0 x.1) fds;
        queue = rest;
      })
  consumes :
      (s : System) (a : ConsumerCall)
      → MayCall s.consumer a
      → Step s (record s {
        consumer = (consume s.consumer a).0;
        told = tell s.told (consume s.consumer a).1;
      })

-- The states that steps lead to.
pub data Reachable : System → System → Type 0 where
  start : (s : System) → Reachable s s
  then_step : (s t u : System) → Reachable s t → Step t u → Reachable s u
