-- ===== src/System/Safety.antt =====
-- Which slots of a channel of src/framelink_linux.cpp are in use: the receipt of a frame, and whole
-- histories of steps.
use framelink.Base.{
  ℕ, ◌+◌, ◌<◌, ◌≡◌, sym, subst, Bool, true, false, none, some, List, ◌∷◌, ◌++◌, ltb, truthy,
  if◌then◌else◌, length, All, arith, Bool-cases, Option-cases, inl, inr, [],
}
use framelink.Api.{ok, FlResult}
use framelink.Metadata.{
  FrameMetadata, Announced, frame_ready, frame_ready_metadata, frame_message, decode_frame,
  accept_metadata, validate_metadata, has_flag, require_metadata, no_metadata,
}
use framelink.Producer.{Producer}
use framelink.Producer.Ownership.{end_submit-IsSubmitted, submit_sync_fd-IsSubmitted}
use framelink.System.Producing.{end_submit-Submission, submit_sync_fd-Submission}
use framelink.Consumer.{Consumer, receive_frame, with_pending, lose_peer}
use framelink.Consumer.Timeline.{IsBelow, newest}
use framelink.System.{
  System, Among, Step, produces, submits, submits_fence, receives, consumes, Reachable, start,
  then_step,
}
use framelink.System.Invariant.{Agree, IsLent, Rising, next_value}
use framelink.System.Steps.{Rising-mono, newest_ge, produced, submitted, consumed}

decode_frame_announced :
    (required : Bool) (a : Announced) (m : FrameMetadata) (y : Announced × FrameMetadata)
    → decode_frame required (frame_message a m) ≡ some y
    → y.0 ≡ a
unfolding decode_frame frame_message
decode_frame_announced required a m y h = elim (Bool-cases (truthy m.version)) [
  | inl described ↦ accepted (validate_metadata m) (
      subst
        (λ b.
          decode_frame required
            (if b then frame_ready_metadata (some (a, m)) else frame_ready (some a))
          ≡ some y)
        described h)
  | inr plain ↦ bare required (
      subst
        (λ b.
          decode_frame required
            (if b then frame_ready_metadata (some (a, m)) else frame_ready (some a))
          ≡ some y)
        plain h)
]
  where
    accepted : (r : FlResult) → accept_metadata r (a, m) ≡ some y → y.0 ≡ a
    accepted ok e = cc e
    accepted r e = cc e

    bare : (required : Bool) → (if required then none else some (a, no_metadata)) ≡ some y → y.0 ≡ a
    bare true e = cc e
    bare false e = cc e

-- The outcomes of a frame's receipt: the connection ends, or the frame that was sent is pending.
receive_frame_cases :
    (P : Consumer → Type 0) (now : ℕ) (c : Consumer) (a : Announced) (m : FrameMetadata)
    (fds : List ℕ)
    → P (lose_peer c)
    → ((n : FrameMetadata) → P (with_pending now c (a, n) fds))
    → P (receive_frame now c (frame_message a m) fds)
unfolding receive_frame
receive_frame_cases P now c a m fds lost pending =
    elim (Option-cases (decode_frame (has_flag c.flags require_metadata) (frame_message a m))) [
      | inl refused ↦ rw (refused, receive_frame) lost
      | inr (y, decoded) ↦
          rw (decoded, receive_frame)
            (elim (Bool-cases (ltb y.0.slot (length c.images))) [
              | inr outside ↦ rw outside lost
              | inl inside ↦ rw inside (
                  subst (λ b. P (with_pending now c (b, y.1) fds))
                    (sym (decode_frame_announced (has_flag c.flags require_metadata) a m y decoded))
                    (pending y.1))
            ])
    ]

module _ (s : System) (g : Agree s) (a : Announced) (m : FrameMetadata)
    (rest : List (Announced × FrameMetadata)) (head : s.queue ≡ (a, m) ∷ rest) where
  ahead : Rising (newest s.consumer) (next_value s.producer) ((a, m) ∷ rest)
  ahead = subst (Rising (newest s.consumer) (next_value s.producer)) head g.rising

  lent : All (λ x. IsLent s.producer x.0.slot x.0.value) ((a, m) ∷ rest)
  lent = subst (All (λ x. IsLent s.producer x.0.slot x.0.value)) head g.queued

  lost : Agree (record s { consumer = lose_peer s.consumer; queue = rest })
  lost = record {
    counts = g.counts;
    timeline = record {
      inv = g.timeline.inv;
      last = g.timeline.last;
      last_held = g.timeline.last_held;
      pending = g.timeline.pending;
    };
    below = kept s.told g.below;
    rising =
        Rising-mono a.value (newest s.consumer) (next_value s.producer) rest
          (omega (arith, ahead.0)) ahead.1;
    queued = lent.1;
    owned = record { pending = g.owned.pending; held = g.owned.held; leased = g.owned.leased };
  }
    where
      kept :
          (ws : List ℕ)
          → All (λ w. IsBelow w s.consumer) ws
          → All (λ w. IsBelow w (lose_peer s.consumer)) ws
      kept [] b = tt
      kept (w ∷ ws) (b, bs) =
          (record { bound = b.bound; held = b.held; leased = b.leased }, kept ws bs)

  pending :
      (now : ℕ) (fds : List ℕ) (n : FrameMetadata)
      → Agree (record s { consumer = with_pending now s.consumer (a, n) fds; queue = rest })
  pending now fds n = record {
    counts = g.counts;
    timeline = record {
      inv = g.timeline.inv;
      last = g.timeline.last;
      last_held = g.timeline.last_held;
      pending = λ _. omega (arith, newest_ge s.consumer g.timeline, ahead.0);
    };
    below = kept s.told g.below;
    rising = ahead.1;
    queued = lent.1;
    owned = record { pending = λ _. lent.0; held = g.owned.held; leased = g.owned.leased };
  }
    where
      kept :
          (ws : List ℕ)
          → All (λ w. IsBelow w s.consumer) ws
          → All (λ w. IsBelow w (with_pending now s.consumer (a, n) fds)) ws
      kept [] b = tt
      kept (w ∷ ws) (b, bs) =
          (record { bound = b.bound; held = b.held; leased = b.leased }, kept ws bs)

  received :
      (now : ℕ) (fds : List ℕ)
      → Agree (record s {
        consumer = receive_frame now s.consumer (frame_message a m) fds;
        queue = rest;
      })
  received now fds =
      receive_frame_cases (λ c. Agree (record s { consumer = c; queue = rest })) now s.consumer a m
        fds lost (pending now fds)

-- A step of either half keeps what they agree on.
pub Step-Agree : (s t : System) → Step s t → Agree s → Agree t
Step-Agree s t (produces _ a quiet) g = produced s g a quiet
Step-Agree s t (submits _ sent b value pts) g =
    submitted s g _ _ b value pts (end_submit-Submission sent s.producer b value pts g.counts)
      (λ i v. end_submit-IsSubmitted sent s.producer b value pts i v)
Step-Agree s t (submits_fence _ sent b pts) g =
    submitted s g _ _ b (s.producer.ready_value + 1) pts
      (submit_sync_fd-Submission sent s.producer b pts g.counts)
      (λ i v. submit_sync_fd-IsSubmitted sent s.producer b pts i v)
Step-Agree s t (receives _ (a, m) rest now fds head) g = received s g a m rest head now fds
Step-Agree s t (consumes _ a may) g = consumed s g a may

pub Reachable-Agree : (s t : System) → Reachable s t → Agree s → Agree t
Reachable-Agree s t (start _) g = g
Reachable-Agree s u (then_step _ t _ r x) g = Step-Agree t u x (Reachable-Agree s t r g)

-- A slot that the consumer holds, has pending or has leased, or whose frame is under way to it.
pub data Uses (s : System) : ℕ → Type 0 where
  has_pending : s.consumer.has_pending ≡ true → Uses s s.consumer.pending_slot
  holds : s.consumer.frame_held ≡ true → Uses s s.consumer.held_slot
  leases :
      (f : ℕ)
      → 0 < (s.consumer.readers.frames f).readers
      → Uses s (s.consumer.readers.frames f).frame.slot
  awaits :
      (before after : List (Announced × FrameMetadata)) (x : Announced × FrameMetadata)
      → s.queue ≡ before ++ x ∷ after
      → Uses s x.0.slot

-- What the agreement says of a slot that is used: its value is above all that was told.
abbrev IsKept : System → ℕ → Type 0
IsKept s i = (v : ℕ) × IsLent s.producer i v × ((w : ℕ) → Among w s.told → w < v)
