-- ===== src/System/Producing.antt =====
-- The order of a producer's values in a channel of src/framelink_linux.cpp, call by call.
use framelink.Base.{
  ℕ, ◌+◌, ◌≤◌, ◌<◌, ◌≡◌, ◌≢◌, ◌-◌, refl, sym, ap, subst, ◌∙◌, Bool, true, false, not, ◌||◌, ◌&&◌,
  leb, truthy, Bool-cases, inl, inr, List, [], ◌∷◌, ◌==◌, if◌then◌else◌, length, set,
  get_or-set_self, length-set, arith,
}
use framelink.Base.Int.{ℤ}
use framelink.Api.{FlResult, ok, u64_max}
use framelink.Metadata.{FrameMetadata}
use framelink.Producer.{
  Release, Producer, Buffer, Round, with_advance, push_back, reserve, is_reservation, cancel_buffer,
  begin_submit, end_submit, retain_buffer, release_buffer, set_frame_metadata, acquire_buffer,
  submit_sync_fd, no_slot, in_ring, requires_metadata, metadata_of,
}
use framelink.Producer.Submitted.{
  AreBelow, RoundBelow, IsSubmitted, advance-AreBelow, push_back-AreBelow,
}
use framelink.Producer.Ownership.{
  Action, acquires, cancels, begins, ends, sets_metadata, submits_sync_fd, retains_buffer,
  releases_buffer, act, ActionBelow, acquired_state,
}
use framelink.Producer.Acquisition.{acquire_buffer-keeps}
use framelink.System.{IsQuiet}
use framelink.System.Invariant.{Counts, next_value}

-- The values are in order, and the next one is n.
pub record CountsTo (n : ℕ) (p : Producer) : Type 0 where
  pub counts : Counts p
  pub next : next_value p ≡ n

module _ (n : ℕ) where
  advanced_Counts :
      (p : Producer) (ready : ℕ → Bool) → CountsTo n p → CountsTo n (with_advance ready p)
  advanced_Counts p ready c =
      let (consumed, waiting) =
        advance-AreBelow (next_value p) ready p.consumed p.releases c.counts.consumed
          c.counts.waiting in
      record {
        counts = record {
          begun = c.counts.begun;
          publishable = c.counts.publishable;
          consumed = consumed;
          waiting = waiting;
          sized = c.counts.sized;
        };
        next = c.next;
      }

  pushed_Counts :
      (p : Producer) (r : Release)
      → r.value < n
      → CountsTo n p
      → CountsTo n (record p { releases = push_back p.releases r })
  pushed_Counts p r below c = record {
    counts = record {
      begun = c.counts.begun;
      publishable = c.counts.publishable;
      consumed = c.counts.consumed;
      waiting =
          push_back-AreBelow (next_value p) p.releases r c.counts.waiting
            (subst (λ k. r.value < k) (sym c.next) below);
      sized = c.counts.sized;
    };
    next = c.next;
  }

  linked_Counts : (p : Producer) (b : Bool) → CountsTo n p → CountsTo n (record p { connected = b })
  linked_Counts p b c = record {
    counts = record {
      begun = c.counts.begun;
      publishable = c.counts.publishable;
      consumed = c.counts.consumed;
      waiting = c.counts.waiting;
      sized = c.counts.sized;
    };
    next = c.next;
  }

  reserved_Counts : (p : Producer) (i : ℕ) → CountsTo n p → CountsTo n (reserve p i).0
  reserved_Counts p i c = record {
    counts = record {
      begun = c.counts.begun;
      publishable = c.counts.publishable;
      consumed = c.counts.consumed;
      waiting = c.counts.waiting;
      sized = length-set p.submit_values i u64_max ∙ c.counts.sized;
    };
    next = c.next;
  }

  acquired_CountsTo :
      (fuel limit : ℕ) (rounds : ℕ → Round) (p : Producer)
      → CountsTo n p
      → ((w : ℕ) → RoundBelow n (rounds w))
      → CountsTo n (acquired_state p (acquire_buffer fuel limit rounds p))
  acquired_CountsTo fuel limit rounds p c below =
      acquire_buffer-keeps (CountsTo n) n advanced_Counts pushed_Counts linked_Counts
        reserved_Counts fuel limit rounds p c below

-- What a call leaves that neither receives nor sends.
record Stays (p q : Producer) : Type 0 where
  pub begun : q.submitting_value ≤ q.ready_value
  pub publishable : q.submitting_value < u64_max
  pub next : next_value q ≡ next_value p
  pub consumed : q.consumed ≡ p.consumed
  pub releases : q.releases ≡ p.releases
  pub sized : length q.submit_values ≡ length p.submit_values
  pub images : q.images ≡ p.images

Stays-Counts : (p q : Producer) → Stays p q → Counts p → Counts q
Stays-Counts p q s c = record {
  begun = s.begun;
  publishable = s.publishable;
  consumed = omega (arith, s.next, s.consumed, c.consumed);
  waiting =
      subst (λ n. AreBelow n q.releases) (sym s.next)
        (subst (AreBelow (next_value p)) (sym s.releases) c.waiting);
  sized = s.sized ∙ c.sized ∙ ap (λ xs. length xs) (sym s.images);
}

cancel_buffer-Stays : (p : Producer) (b : Buffer) → Counts p → Stays p (cancel_buffer p b).0
unfolding cancel_buffer
cancel_buffer-Stays p b c = record {
  begun = ground (arith, c.begun);
  publishable = ground (arith, c.publishable);
  next = ground arith;
  consumed = ground arith;
  releases = ground arith;
  sized = ground (arith, length-set p.submit_values b.slot 0);
  images = ground arith;
}

begin_submit-Stays : (p : Producer) (b : Buffer) → Counts p → Stays p (begin_submit p b).0
unfolding begin_submit
begin_submit-Stays p b c = record {
  begun = ground (arith, c.begun);
  publishable = ground (arith, c.publishable);
  next = ground arith;
  consumed = ground arith;
  releases = ground arith;
  sized = ground arith;
  images = ground arith;
}

set_frame_metadata-Stays :
    (p : Producer) (b : Buffer) (m : FrameMetadata)
    → Counts p
    → Stays p (set_frame_metadata p b m).0
unfolding set_frame_metadata
set_frame_metadata-Stays p b m c = record {
  begun = ground (arith, c.begun);
  publishable = ground (arith, c.publishable);
  next = ground arith;
  consumed = ground arith;
  releases = ground arith;
  sized = ground arith;
  images = ground arith;
}

retain_buffer-Stays : (p : Producer) (b : Buffer) → Counts p → Stays p (retain_buffer p b).0
unfolding retain_buffer
retain_buffer-Stays p b c = record {
  begun = ground (arith, c.begun);
  publishable = ground (arith, c.publishable);
  next = ground arith;
  consumed = ground arith;
  releases = ground arith;
  sized = ground arith;
  images = ground arith;
}

AreBelow-mono : (m n : ℕ) (rs : List Release) → m ≤ n → AreBelow m rs → AreBelow n rs
AreBelow-mono m n [] le a = tt
AreBelow-mono m n (r ∷ rs) le (a, as') = (omega (arith, a, le), AreBelow-mono m n rs le as')

-- A call that sends no frame leaves the values in order and the next one as it is.
pub act-Counts :
    (p : Producer) (told : List ℕ) (a : Action)
    → Counts p
    → IsQuiet told a
    → ActionBelow (next_value p) a
    → Counts (act p a) × (next_value (act p a) ≡ next_value p)
unfolding act retain_buffer release_buffer
act-Counts p told (acquires fuel limit rounds) c quiet below =
    let d =
      acquired_CountsTo (next_value p) fuel limit rounds p (record { counts = c; next = refl })
        below in
    (d.counts, d.next)
act-Counts p told (cancels b) c quiet below =
    let s = cancel_buffer-Stays p b c in (Stays-Counts p _ s c, s.next)
act-Counts p told (begins b) c quiet below =
    let s = begin_submit-Stays p b c in (Stays-Counts p _ s c, s.next)
act-Counts p told (sets_metadata b m) c quiet below =
    let s = set_frame_metadata-Stays p b m c in (Stays-Counts p _ s c, s.next)
act-Counts p told (ends sent b value pts) c quiet below = elim quiet [ ]
act-Counts p told (submits_sync_fd sent b pts) c quiet below = elim quiet [ ]
act-Counts p told (retains_buffer b) c quiet below =
    let s = retain_buffer-Stays p b c in (Stays-Counts p _ s c, s.next)
act-Counts p told (releases_buffer t) c quiet below = (
  record {
    begun = c.begun;
    publishable = c.publishable;
    consumed = c.consumed;
    waiting = c.waiting;
    sized = c.sized;
  },
  refl,
)

-- What a submission that ends well does: its value is the next one, its slot was reserved, and the
-- next value rises.
pub record Ended (p : Producer) (b : Buffer) (value : ℕ) (q : Producer) : Type 0 where
  pub counts : Counts q
  pub was_next : value ≡ next_value p
  pub rises : value < next_value q
  pub lent : IsSubmitted q b.slot value

-- What becomes of a submission: it is refused and leaves the producer as it is, or it gives the
-- slot away, and its result says whether the link took the message.
pub data Submission (p : Producer) (b : Buffer) (value : ℕ) (q : Producer) (r : FlResult)
    : Type 0 where
  refused : q ≡ p → r ≢ ok → Submission p b value q r
  given : Ended p b value q → Submission p b value q r

-- The checks of flEndSubmit.
abbrev refuses_end : Producer → Buffer → ℕ → Bool
refuses_end p b value =
    not (is_reservation p b)
    || value == 0
    || not (value == p.submitting_value)
    || not (b.slot == p.submitting_slot)
    || not p.connected

-- The producer behind a message that was sent or not.
abbrev published : Bool → Producer → Buffer → ℕ → ℕ → Producer
published sent p b value ready = record p {
  ready_value = ready;
  submit_values = set p.submit_values b.slot value;
  submitting_value = 0;
  submitting_slot = no_slot;
  connected = sent && p.connected;
}

end_submit_refused :
    (sent : Bool) (p : Producer) (b : Buffer) (value : ℕ) (pts : ℤ)
    → refuses_end p b value ≡ true
    → ((end_submit sent p b value pts).0 ≡ p) × ((end_submit sent p b value pts).1 ≢ ok)
unfolding end_submit
end_submit_refused sent p b value pts h = (ground (arith, h), ground (arith, h))

end_submit_given :
    (sent : Bool) (p : Producer) (b : Buffer) (value : ℕ) (pts : ℤ)
    → refuses_end p b value ≡ false
    → (end_submit sent p b value pts).0 ≡ published sent p b value p.ready_value
unfolding end_submit
end_submit_given sent p b value pts h = ground (arith, h)

-- What the checks of a submission say.
given_parts :
    (p : Producer) (b : Buffer) (value : ℕ)
    → refuses_end p b value ≡ false
    → (b.slot < length p.images) × (value ≡ p.submitting_value) × (0 < value)
unfolding is_reservation
given_parts p b value h = (ground (arith, h), ground (arith, h), ground (arith, h))

published-Ended :
    (sent : Bool) (p : Producer) (b : Buffer) (value ready : ℕ)
    → Counts p
    → b.slot < length p.images
    → value ≡ next_value p
    → value ≤ ready
    → value < u64_max
    → Ended p b value (published sent p b value ready)
published-Ended sent p b value ready c inside was_next begun small = record {
  counts = record {
    begun = omega arith;
    publishable = omega arith;
    consumed = omega (arith, c.consumed, was_next, begun);
    waiting =
        AreBelow-mono (next_value p) (ready + 1) p.releases (omega (arith, was_next, begun))
          c.waiting;
    sized = length-set p.submit_values b.slot value ∙ c.sized;
  };
  was_next = was_next;
  rises = omega (arith, begun);
  lent = record {
    value =
        get_or-set_self p.submit_values b.slot value 0
          (subst (λ n. b.slot < n) (sym c.sized) inside);
    unconsumed = omega (arith, c.consumed, was_next);
    waiting = subst (λ n. AreBelow n p.releases) (sym was_next) c.waiting;
    published = small;
  };
}

next_begun : (s r value : ℕ) → value ≡ s → 0 < value → value ≡ (if s == 0 then r + 1 else s)
next_begun s r value same positive = ground (arith, same, positive)

pub end_submit-Submission :
    (sent : Bool) (p : Producer) (b : Buffer) (value : ℕ) (pts : ℤ)
    → Counts p
    → Submission p b value (end_submit sent p b value pts).0 (end_submit sent p b value pts).1
end_submit-Submission sent p b value pts c = elim (Bool-cases (refuses_end p b value)) [
  | inl h ↦ let (same, failed) = end_submit_refused sent p b value pts h in refused same failed
  | inr h ↦
      let (inside, same, positive) = given_parts p b value h in
      given (
        subst (Ended p b value) (sym (end_submit_given sent p b value pts h)) (
          published-Ended sent p b value p.ready_value c inside
            (next_begun p.submitting_value p.ready_value value same positive)
            (omega (arith, same, c.begun)) (omega (arith, same, c.publishable))))
]

-- The checks of flSubmitSyncFd, with those of flBeginSubmit.
abbrev refuses_fence : Producer → Buffer → Bool
refuses_fence p b =
    not (in_ring p b)
    || not p.connected
    || not (is_reservation p b)
    || truthy p.submitting_value
    || (requires_metadata p.peer_features && (metadata_of p b).version == 0)
    || leb (u64_max - 1) p.ready_value

submit_sync_fd_refused :
    (sent : Bool) (p : Producer) (b : Buffer) (pts : ℤ)
    → refuses_fence p b ≡ true
    → ((submit_sync_fd sent p b pts).0 ≡ p) × ((submit_sync_fd sent p b pts).1 ≢ ok)
unfolding submit_sync_fd begin_submit
submit_sync_fd_refused sent p b pts h = (ground (arith, h), ground (arith, h))

submit_sync_fd_given :
    (sent : Bool) (p : Producer) (b : Buffer) (pts : ℤ)
    → refuses_fence p b ≡ false
    → (submit_sync_fd sent p b pts).0 ≡ published sent p b (p.ready_value + 1) (p.ready_value + 1)
unfolding submit_sync_fd begin_submit
submit_sync_fd_given sent p b pts h = ground (arith, h)

fence_parts :
    (p : Producer) (b : Buffer)
    → refuses_fence p b ≡ false
    → (b.slot < length p.images) × (p.submitting_value ≡ 0) × (p.ready_value + 1 < u64_max)
unfolding is_reservation
fence_parts p b h = (ground (arith, h), ground (arith, h), ground (arith, h))

next_free : (s r : ℕ) → s ≡ 0 → r + 1 ≡ (if s == 0 then r + 1 else s)
next_free s r none_begun = ground (arith, none_begun)

pub submit_sync_fd-Submission :
    (sent : Bool) (p : Producer) (b : Buffer) (pts : ℤ)
    → Counts p
    → Submission p b
        (p.ready_value + 1)
        (submit_sync_fd sent p b pts).0
        (submit_sync_fd sent p b pts).1
submit_sync_fd-Submission sent p b pts c = elim (Bool-cases (refuses_fence p b)) [
  | inl h ↦ let (same, failed) = submit_sync_fd_refused sent p b pts h in refused same failed
  | inr h ↦
      let (inside, none_begun, room) = fence_parts p b h in
      given (
        subst (Ended p b (p.ready_value + 1)) (sym (submit_sync_fd_given sent p b pts h)) (
          published-Ended sent p b (p.ready_value + 1) (p.ready_value + 1) c inside
            (next_free p.submitting_value p.ready_value none_begun) (omega arith) room))
]
