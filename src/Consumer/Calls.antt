-- ===== src/Consumer/Calls.antt =====
-- The calls of a consumer of src/framelink_linux.cpp and src/fl_read_api.inc, in any order, and the values
-- that they tell the producer.
use framelink.Base.{
  ℕ, ◌≤◌, ◌<◌, ◌≡◌, Bool, true, false, Option, none, some, arith, Bool-cases, inl, inr,
}
use framelink.Api.{FlResult, ok, busy, invalid, Frame}
use framelink.Ledger.{retain, complete, empty}
use framelink.Ledger.Held.{retain-Retains, complete-Retains}
use framelink.Producer.{Release}
use framelink.Consumer.{
  Consumer, Releasing, take_frame, with_held, is_held, release_sync_fd, release, signal_consumed,
  no_longer_held, defers,
}
use framelink.Consumer.Leases.{
  Polled, lease_frame, retain_read_lease, complete_read_lease, complete_read_lease_sync_fd,
  collect_read_leases,
}
use framelink.Consumer.Timeline.{
  Timeline, newest, with_held-Owned, Leaves-Sound, Sound, MessageBelow, take_frame_cases,
  with_held-Timeline, with_held-IsBelow, release_sync_fd-Leaves, release-Leaves,
  signal_consumed-Leaves, changed_readers,
}
use framelink.Consumer.Collection.{
  MessageBelow-cases, empty-IsAbove, lease_frame-Sound, complete_read_lease_sync_fd-Leaves,
  collect_read_leases-Sound,
}

pub data ConsumerCall : Type 0 where
  takes : (ℕ → Bool) → ConsumerCall
  releases : Releasing → Frame → ConsumerCall
  releases_sync_fd : Releasing → Frame → Option ℕ → ConsumerCall
  signals : Releasing → ℕ → Option ℕ → ConsumerCall
  leases : Frame → ConsumerCall
  retains_lease : ℕ → ConsumerCall
  completes_lease : ℕ → ConsumerCall
  completes_sync_fd : Bool → ℕ → ℕ → ConsumerCall
  collects : Bool → (ℕ → Polled) → ConsumerCall

-- The state behind a call, with the FrameReleased message that it sends.
unfoldable pub consume : Consumer → ConsumerCall → Consumer × Option Release
consume c (takes ready) = elim (take_frame ready c) [ none ↦ (c, none) | some x ↦ (x.0, none) ]
consume c (releases o f) = let (d, r, m) = release o c f in (d, m)
consume c (releases_sync_fd o f fd) = let (d, r, m) = release_sync_fd o c f fd in (d, m)
consume c (signals o value fd) = let (d, r, m) = signal_consumed o c value fd in (d, m)
consume c (leases f) = let (d, r, lease) = lease_frame c f in (d, none)
consume c (retains_lease t) = let (d, r, lease) = retain_read_lease c t in (d, none)
consume c (completes_lease t) = let (d, r) = complete_read_lease c t in (d, none)
consume c (completes_sync_fd duplicated t fd) =
    let (d, r) = complete_read_lease_sync_fd duplicated c t fd in (d, none)
consume c (collects sent polled) = let (d, r, m) = collect_read_leases sent polled c in (d, m)

-- The duty of a caller that retires frames itself: not to signal the value of a frame that it holds.
abbrev pub MayCall : Consumer → ConsumerCall → Type 0
MayCall c (signals o value fd) = c.frame_held ≡ true → value < c.held_ready
MayCall c _ = Unit

-- A message of a release is about the frame that was held, of an empty ledger.
release_message :
    (o : Releasing) (c : Consumer) (f : Frame) (fd : Option ℕ) (r : Release)
    → (release_sync_fd o c f fd).2 ≡ some r
    → (r.value ≡ c.held_ready)
      × (empty c.readers ≡ true)
      × ((release_sync_fd o c f fd).0.frame_held ≡ false)
unfolding release_sync_fd is_held
release_message o c f fd r h = (ground (arith, h), ground (arith, h), ground (arith, h))

-- A message of a signal has the signalled value, at most that of the last frame taken, of an empty ledger.
signal_message :
    (o : Releasing) (c : Consumer) (value : ℕ) (fd : Option ℕ) (r : Release)
    → (signal_consumed o c value fd).2 ≡ some r
    → (r.value ≡ value) × (value ≤ c.held_ready) × (empty c.readers ≡ true)
unfolding signal_consumed
signal_message o c value fd r h = (ground (arith, h), ground (arith, h), ground (arith, h))

-- Where the caller retires frames itself, a release sends nothing.
release_cases :
    (P : Consumer × FlResult × Option Release → Type 0) (o : Releasing) (c : Consumer) (f : Frame)
    → P (release_sync_fd o c f none)
    → ((d : Consumer) (r : FlResult) → P (d, r, none))
    → P (release o c f)
unfolding release
release_cases P o c f sync quiet = elim (Bool-cases (defers c)) [
  | inr plain ↦ rw plain sync
  | inl deferring ↦ rw deferring (elim (Bool-cases (empty c.readers)) [
    | inr leased ↦ rw leased (quiet c busy)
    | inl free ↦ rw free (elim (Bool-cases (is_held c f)) [
      | inr other ↦ rw other (quiet c invalid)
      | inl held ↦ rw held (quiet (no_longer_held c) ok)
    ])
  ])
]

module _ (o : Releasing) (c : Consumer) (t : Timeline c) where
  release_sync_fd-MessageBelow :
      (f : Frame) (fd : Option ℕ)
      → MessageBelow (release_sync_fd o c f fd).0 (release_sync_fd o c f fd).2
  release_sync_fd-MessageBelow f fd = MessageBelow-cases _ _ (λ r sent.
      let (value, none_leased, freed) = release_message o c f fd r sent in
      let d = release_sync_fd-Leaves o c f fd in
      record {
        bound = omega (arith, value, d.held_ready);
        held = λ h. cc h;
        leased =
            d.readers.above (λ frame. r.value < frame.ready_value) t.inv
              (empty-IsAbove r.value c.readers t.inv none_leased);
      })

  release-MessageBelow : (f : Frame) → MessageBelow (release o c f).0 (release o c f).2
  release-MessageBelow f =
      release_cases (λ x. MessageBelow x.0 x.2) o c f (release_sync_fd-MessageBelow f none)
        (λ d r. tt)

  signal_consumed-MessageBelow :
      (value : ℕ) (fd : Option ℕ)
      → (c.frame_held ≡ true → value < c.held_ready)
      → MessageBelow (signal_consumed o c value fd).0 (signal_consumed o c value fd).2
  signal_consumed-MessageBelow value fd duty = MessageBelow-cases _ _ (λ r sent.
      let (same, bound, none_leased) = signal_message o c value fd r sent in
      let d = signal_consumed-Leaves o c value fd in
      record {
        bound = omega (arith, same, bound, d.held_ready);
        held = λ h. omega (arith, same, duty (d.frame_held h), d.held_ready);
        leased =
            d.readers.above (λ frame. r.value < frame.ready_value) t.inv
              (empty-IsAbove r.value c.readers t.inv none_leased);
      })

-- Whatever a consumer's caller does with the frames of a channel, the values of the frames that it leased last, holds and has
-- pending go on rising, a value that was below all of its frames stays so, and each value that the
-- producer is told is below the frames that are still held or leased. A caller that retires frames itself must
-- not signal the value of a frame that it holds.
pub consume-Sound :
    (c : Consumer) (a : ConsumerCall) → Timeline c → MayCall c a → Sound c (consume c a)
unfolding consume retain_read_lease complete_read_lease
consume-Sound c (takes ready) t may =
    take_frame_cases (λ o. Sound c (elim o [ none ↦ (c, none) | some x ↦ (x.0, none) ])) ready c
      (record {
        timeline = t;
        owned = λ Q o. o;
        latest = omega arith;
        below = λ w b. b;
        message = tt;
      })
      (λ pending. record {
        timeline = with_held-Timeline c t pending;
        owned = λ Q o. with_held-Owned Q c pending o;
        latest = with_held-newest pending;
        below = λ w b. with_held-IsBelow w c t pending b;
        message = tt;
      })
  where
    with_held-newest : c.has_pending ≡ true → newest (with_held c) ≤ newest c
    with_held-newest h = ground (arith, h)
consume-Sound c (releases o f) t may =
    Leaves-Sound c _ _ t (release-Leaves o c f) (release-MessageBelow o c t f)
consume-Sound c (releases_sync_fd o f fd) t may =
    Leaves-Sound c _ _ t (release_sync_fd-Leaves o c f fd) (release_sync_fd-MessageBelow o c t f fd)
consume-Sound c (signals o value fd) t may =
    Leaves-Sound c _ _ t (signal_consumed-Leaves o c value fd)
      (signal_consumed-MessageBelow o c t value fd may)
consume-Sound c (leases f) t may = lease_frame-Sound c f t
consume-Sound c (retains_lease n) t may =
    Leaves-Sound c _ none t
      (changed_readers c (retain c.readers n).0 c.completions (retain-Retains c.readers n)) tt
consume-Sound c (completes_lease n) t may =
    Leaves-Sound c _ none t
      (changed_readers c (complete c.readers n).0 c.completions (complete-Retains c.readers n)) tt
consume-Sound c (completes_sync_fd duplicated n fd) t may =
    Leaves-Sound c _ none t (complete_read_lease_sync_fd-Leaves duplicated c n fd) tt
consume-Sound c (collects sent polled) t may = collect_read_leases-Sound sent polled c t
