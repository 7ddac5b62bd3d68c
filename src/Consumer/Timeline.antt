-- ===== src/Consumer/Timeline.antt =====
-- The timeline of a consumer of src/framelink_linux.cpp: the values of the frames that it has, and how they
-- compare with those that it releases.
use framelink.Base.{
  ℕ, ◌≤◌, ◌<◌, ◌≡◌, refl, sym, subst, ◌∙◌, Bool, true, false, not, ◌&&◌, ◌||◌, Option, none, some,
  List, [], ◌∷◌, ◌==◌, if◌then◌else◌, arith, Bool-cases, inl, inr,
}
use framelink.Api.{FlResult, ok, Frame}
use framelink.Ledger.{Ledger, finish_deferred}
use framelink.Ledger.Invariant.{Inv}
use framelink.Ledger.Held.{
  Holds, IsAbove, Retains, Retains-refl, Retains-trans, same_readers, finish_deferred-Retains,
}
use framelink.Producer.{Release, fence_ready}
use framelink.Metadata.{has_flag}
use framelink.Consumer.{
  Consumer, Completion, Releasing, take_frame, release_sync_fd, release, signal_consumed, with_held,
  frame_of, gpu_sync,
}
use framelink.Consumer.Leases.{
  Polled, poll_failed, interrupted, still_waiting, broken, signalled, other_event, close_poll,
  poll_one, poll_fd, poll_completions, poll_further, poll_skipped, retire_read_leases,
}

-- The values of the frames that the consumer has: those that it leased last, holds and has pending rise.
pub record Timeline (c : Consumer) : Type 0 where
  pub inv : Inv c.readers
  pub last : c.readers.last_value ≤ c.held_ready
  pub last_held : c.frame_held ≡ true → c.readers.last_value < c.held_ready
  pub pending : c.has_pending ≡ true → c.held_ready < c.pending_ready

-- The value of the latest frame that the consumer received.
abbrev pub newest : Consumer → ℕ
newest c = if c.has_pending then c.pending_ready else c.held_ready

-- The value is below that of each frame that the consumer has.
pub record IsBelow (w : ℕ) (c : Consumer) : Type 0 where
  pub bound : w ≤ c.held_ready
  pub held : c.frame_held ≡ true → w < c.held_ready
  pub leased : IsAbove w c.readers

-- What holds of the slot and the value of each frame that the consumer has.
pub record Owned (Q : ℕ → ℕ → Type 0) (c : Consumer) : Type 0 where
  pub pending : c.has_pending ≡ true → Q c.pending_slot c.pending_ready
  pub held : c.frame_held ≡ true → Q c.held_slot c.held_ready
  pub leased : Holds (λ frame. Q frame.slot frame.ready_value) c.readers

-- A call that takes no frame.
pub record Leaves (c d : Consumer) : Type 1 where
  pub readers : Retains c.readers d.readers
  pub held_ready : d.held_ready ≡ c.held_ready
  pub frame_held : d.frame_held ≡ true → c.frame_held ≡ true
  pub has_pending : d.has_pending ≡ true → c.has_pending ≡ true
  pub pending_ready : d.pending_ready ≡ c.pending_ready
  pub held_slot : d.held_slot ≡ c.held_slot
  pub pending_slot : d.pending_slot ≡ c.pending_slot

pub Leaves-Timeline : (c d : Consumer) → Leaves c d → Timeline c → Timeline d
Leaves-Timeline c d s t = record {
  inv = s.readers.inv t.inv;
  last = omega (arith, t.last, s.held_ready, s.readers.last t.inv);
  last_held = λ h. omega (arith, t.last_held (s.frame_held h), s.held_ready, s.readers.last t.inv);
  pending = λ h. omega (arith, t.pending (s.has_pending h), s.held_ready, s.pending_ready);
}

pub Leaves-IsBelow : (w : ℕ) (c d : Consumer) → Timeline c → Leaves c d → IsBelow w c → IsBelow w d
Leaves-IsBelow w c d t s b = record {
  bound = omega (arith, b.bound, s.held_ready);
  held = λ h. omega (arith, b.held (s.frame_held h), s.held_ready);
  leased = s.readers.above (λ frame. w < frame.ready_value) t.inv b.leased;
}

pub Leaves-Owned :
    (Q : ℕ → ℕ → Type 0) (c d : Consumer) → Timeline c → Leaves c d → Owned Q c → Owned Q d
Leaves-Owned Q c d t s o = record {
  pending = λ h. renamed _ _ _ _ s.pending_slot s.pending_ready (o.pending (s.has_pending h));
  held = λ h. renamed _ _ _ _ s.held_slot s.held_ready (o.held (s.frame_held h));
  leased = s.readers.above (λ frame. Q frame.slot frame.ready_value) t.inv o.leased;
}
  where
    renamed : (i j v w : ℕ) → j ≡ i → w ≡ v → Q i v → Q j w
    renamed i j v w e k q = subst (λ n. Q n w) (sym e) (subst (Q i) (sym k) q)

pub Leaves-trans : (c d e : Consumer) → Leaves c d → Leaves d e → Leaves c e
Leaves-trans c d e r s = record {
  readers = Retains-trans c.readers d.readers e.readers r.readers s.readers;
  held_ready = s.held_ready ∙ r.held_ready;
  frame_held = λ h. r.frame_held (s.frame_held h);
  has_pending = λ h. r.has_pending (s.has_pending h);
  pending_ready = s.pending_ready ∙ r.pending_ready;
  held_slot = s.held_slot ∙ r.held_slot;
  pending_slot = s.pending_slot ∙ r.pending_slot;
}

pub take_frame_cases {ℓ} :
    (P : Option (Consumer × Frame) → Type ℓ) (ready : ℕ → Bool) (c : Consumer)
    → P none
    → (c.has_pending ≡ true → P (some (with_held c, frame_of c)))
    → P (take_frame ready c)
unfolding take_frame
take_frame_cases P ready c nothing taken =
    elim (Bool-cases (
      c.has_pending
      && not c.frame_held
      && (has_flag c.flags gpu_sync || fence_ready ready c.pending_fd))) [
        | inr out ↦ rw out nothing
        | inl free ↦ rw free (taken (ground (arith, free)))
      ]

pub with_held-Timeline : (c : Consumer) → Timeline c → c.has_pending ≡ true → Timeline (with_held c)
with_held-Timeline c t h = record {
  inv = t.inv;
  last = omega (arith, t.last, t.pending h);
  last_held = λ _. omega (arith, t.last, t.pending h);
  pending = λ e. cc e;
}

pub with_held-Owned :
    (Q : ℕ → ℕ → Type 0) (c : Consumer) → c.has_pending ≡ true → Owned Q c → Owned Q (with_held c)
with_held-Owned Q c h o = record { pending = λ e. cc e; held = λ _. o.pending h; leased = o.leased }

pub with_held-IsBelow :
    (w : ℕ) (c : Consumer)
    → Timeline c
    → c.has_pending ≡ true
    → IsBelow w c
    → IsBelow w (with_held c)
with_held-IsBelow w c t h b = record {
  bound = omega (arith, b.bound, t.pending h);
  held = λ _. omega (arith, b.bound, t.pending h);
  leased = b.leased;
}

pub release_sync_fd-Leaves :
    (o : Releasing) (c : Consumer) (f : Frame) (fd : Option ℕ)
    → Leaves c (release_sync_fd o c f fd).0
unfolding release_sync_fd
release_sync_fd-Leaves o c f fd = record {
  readers = same_readers c.readers _ (ground arith);
  held_ready = ground arith;
  frame_held = ground arith;
  has_pending = ground arith;
  pending_ready = ground arith;
  held_slot = ground arith;
  pending_slot = ground arith;
}

pub release-Leaves : (o : Releasing) (c : Consumer) (f : Frame) → Leaves c (release o c f).0
unfolding release release_sync_fd
release-Leaves o c f = record {
  readers = same_readers c.readers _ (ground arith);
  held_ready = ground arith;
  frame_held = ground arith;
  has_pending = ground arith;
  pending_ready = ground arith;
  held_slot = ground arith;
  pending_slot = ground arith;
}

pub signal_consumed-Leaves :
    (o : Releasing) (c : Consumer) (value : ℕ) (fd : Option ℕ)
    → Leaves c (signal_consumed o c value fd).0
unfolding signal_consumed
signal_consumed-Leaves o c value fd = record {
  readers = same_readers c.readers _ (ground arith);
  held_ready = ground arith;
  frame_held = ground arith;
  has_pending = ground arith;
  pending_ready = ground arith;
  held_slot = ground arith;
  pending_slot = ground arith;
}

-- A call that changes the ledger only.
pub changed_readers :
    (c : Consumer) (l : Ledger) (es : List Completion)
    → Retains c.readers l
    → Leaves c (record c { readers = l; completions = es })
changed_readers c l es r = record {
  readers = r;
  held_ready = refl;
  frame_held = λ h. h;
  has_pending = λ h. h;
  pending_ready = refl;
  held_slot = refl;
  pending_slot = refl;
}

pub retire_read_leases-Leaves :
    (sent : Bool) (c : Consumer) (value : ℕ) → Leaves c (retire_read_leases sent c value).0
unfolding retire_read_leases
retire_read_leases-Leaves sent c value = record {
  readers = same_readers c.readers _ (ground arith);
  held_ready = ground arith;
  frame_held = ground arith;
  has_pending = ground arith;
  pending_ready = ground arith;
  held_slot = ground arith;
  pending_slot = ground arith;
}

poll_one-Retains : (r : Polled) (l : Ledger) (e : Completion) → Retains l (poll_one r l e).0
unfolding poll_one
poll_one-Retains poll_failed l e = Retains-refl l
poll_one-Retains interrupted l e = Retains-refl l
poll_one-Retains still_waiting l e = Retains-refl l
poll_one-Retains broken l e = Retains-refl l
poll_one-Retains other_event l e = Retains-refl l
poll_one-Retains signalled l e =
    closed (finish_deferred l e.token).0 (finish_deferred l e.token).1
      (finish_deferred-Retains l e.token)
  where
    closed : (m : Ledger) (r : FlResult) → Retains l m → Retains l (close_poll e (m, r)).0
    closed m ok k = k
    closed m r k = k

pub poll_completions-Retains :
    (polled : ℕ → Polled) (l : Ledger) (es : List Completion)
    → Retains l (poll_completions polled l es).0
unfolding poll_completions
poll_completions-Retains polled l [] = Retains-refl l
poll_completions-Retains polled l (e ∷ es) =
    either (e.token == 0) _ _ (poll_completions-Retains polled l es) (
      further (poll_one (poll_fd polled e.fd) l e).0 (poll_one (poll_fd polled e.fd) l e).1
        (poll_one (poll_fd polled e.fd) l e).2 (poll_one-Retains (poll_fd polled e.fd) l e)
        (λ m. poll_completions-Retains polled m es))
  where
    either :
        (b : Bool) (x y : Ledger × FlResult × List Completion)
        → Retains l x.0
        → Retains l y.0
        → Retains l (if b then poll_skipped e x else y).0
    either true x y h k = h
    either false x y h k = k

    further :
        (m : Ledger) (r : FlResult) (e' : Completion)
        → Retains l m
        → ((n : Ledger) → Retains n (poll_completions polled n es).0)
        → Retains l (poll_further (λ n. poll_completions polled n es) es (m, r, e')).0
    further m ok e' k later = Retains-trans l m (poll_completions polled m es).0 k (later m)
    further m r e' k later = k

pub Leaves-newest : (c d : Consumer) → Timeline c → Leaves c d → newest d ≤ newest c
Leaves-newest c d t s =
    let more = s.has_pending in
    let same = s.pending_ready in
    let held = s.held_ready in let newer = t.pending in ground (arith, more, same, held, newer)

-- What the message of a call tells the producer lies below the frames that the consumer has then.
abbrev pub MessageBelow : Consumer → Option Release → Type 0
MessageBelow c none = Unit
MessageBelow c (some r) = IsBelow r.value c

-- A call's end: the timeline goes on, no frame comes in, values that were below the consumer's frames stay below them, and so is
-- the value that it tells the producer.
pub record Sound (c : Consumer) (o : Consumer × Option Release) : Type 1 where
  pub timeline : Timeline o.0
  pub owned : (Q : ℕ → ℕ → Type 0) → Owned Q c → Owned Q o.0
  pub latest : newest o.0 ≤ newest c
  pub below : (w : ℕ) → IsBelow w c → IsBelow w o.0
  pub message : MessageBelow o.0 o.1

pub Leaves-Sound :
    (c d : Consumer) (m : Option Release)
    → Timeline c
    → Leaves c d
    → MessageBelow d m
    → Sound c (d, m)
Leaves-Sound c d m t s b = record {
  timeline = Leaves-Timeline c d s t;
  owned = λ Q. Leaves-Owned Q c d t s;
  latest = Leaves-newest c d t s;
  below = λ w. Leaves-IsBelow w c d t s;
  message = b;
}
