-- ===== src/Consumer/Collection.antt =====
-- The end of a read lease and the collection of read leases, src/fl_read_api.inc, and the values that a
-- consumer tells the producer there.
use framelink.Base.{
  ℕ, ◌<◌, ◌≡◌, refl, sym, subst, Bool, true, false, not, ◌||◌, Option, none, some, List, ◌==◌,
  if◌then◌else◌, arith, Bool-cases, Option-cases, inl, inr,
}
use framelink.Api.{FlResult, ok, busy, invalid, Frame}
use framelink.Ledger.{Ledger, acquire, get, defer, retirement, retired, empty}
use framelink.Ledger.Invariant.{Inv}
use framelink.Ledger.Invariant.Acquire.{acquire-Inv}
use framelink.Ledger.Held.{
  Holds, IsAbove, Taken, acquire-Taken, retirement-IsAbove, retirement-le-last, Retains,
  Retains-refl, IsAbove-zero, defer-Retains, retired-Retains,
}
use framelink.Metadata.{has_flag}
use framelink.Producer.{Release}
use framelink.Consumer.{Consumer, Completion, is_held, defer_release, gpu_sync}
use framelink.Consumer.Leases.{
  Polled, lease_frame, close_lease, with_readers, is_held_image, complete_read_lease_sync_fd,
  place_completion, close_defer, defer_placed, poll_completions, retire_read_leases,
  collect_read_leases, collect_polled, collect_retired, close_collect,
}
use framelink.Consumer.Timeline.{
  Timeline, Leaves-newest, Leaves-Owned, IsBelow, Leaves, Leaves-Timeline, Leaves-IsBelow,
  Leaves-trans, Leaves-Sound, Sound, MessageBelow, changed_readers, retire_read_leases-Leaves,
  poll_completions-Retains,
}

pub MessageBelow-cases :
    (d : Consumer) (m : Option Release)
    → ((r : Release) → m ≡ some r → IsBelow r.value d)
    → MessageBelow d m
MessageBelow-cases d none h = tt
MessageBelow-cases d (some r) h = h r refl

-- No frame of an empty ledger has a reader.
pub empty-IsAbove : (w : ℕ) (l : Ledger) → Inv l → empty l ≡ true → IsAbove w l
empty-IsAbove w l v e f held = elim (never (v.cleared f (ground (arith, e)))) [ ]
  where
    never : (l.frames f).readers ≡ 0 → ⊥
    never z = omega (arith, z, held)

same_Leaves : (c : Consumer) → Leaves c c
same_Leaves c = changed_readers c c.readers c.completions (Retains-refl c.readers)

-- What the ledger does with the frame, and with values below all of its frames.
from_zero :
    (c : Consumer) (f : Frame) (l : Ledger) (r : FlResult) (lease : Option ℕ)
    → Timeline c
    → c.frame_held ≡ true
    → f.ready_value ≡ c.held_ready
    → ((P : Frame → Type 0) → Holds P c.readers → P f → Taken P c.readers f (l, r, lease))
    → Taken (λ frame. 0 < frame.ready_value) c.readers f (l, r, lease)
from_zero c f l r lease t is_taken same leased =
    leased (λ frame. 0 < frame.ready_value) (IsAbove-zero c.readers t.inv)
      (omega (arith, same, t.last_held is_taken))

taken_Q :
    (Q : ℕ → ℕ → Type 0) (c : Consumer) (f : Frame)
    → f.ready_value ≡ c.held_ready
    → f.slot ≡ c.held_slot
    → Q c.held_slot c.held_ready
    → Q f.slot f.ready_value
taken_Q Q c f same slot q =
    subst (λ n. Q n f.ready_value) (sym slot) (subst (Q c.held_slot) (sym same) q)

-- The end of a lease: the held frame is leased, or nothing changes but the ledger's table.
close_lease-Sound :
    (c : Consumer) (f : Frame) (l : Ledger) (r : FlResult) (lease : Option ℕ)
    → Timeline c
    → c.frame_held ≡ true
    → f.ready_value ≡ c.held_ready
    → f.slot ≡ c.held_slot
    → Inv l
    → ((P : Frame → Type 0) → Holds P c.readers → P f → Taken P c.readers f (l, r, lease))
    → Sound c ((close_lease c (l, r, lease)).0, none)
close_lease-Sound c f l ok lease t is_taken same slot inv leased = record {
  timeline = record {
    inv = inv;
    last = elim (from_zero c f l ok lease t is_taken same leased).last [
      | inl kept ↦ omega (arith, kept, t.last)
      | inr (_, now) ↦ omega (arith, now, same)
    ];
    last_held = λ h. cc h;
    pending = t.pending;
  };
  owned = λ Q o. record {
    pending = o.pending;
    held = λ h. cc h;
    leased =
        (leased (λ frame. Q frame.slot frame.ready_value) o.leased
          (taken_Q Q c f same slot (o.held is_taken))).above;
  };
  latest = omega arith;
  below = λ w b. record {
    bound = b.bound;
    held = λ h. cc h;
    leased =
        (leased (λ frame. w < frame.ready_value) b.leased
          (omega (arith, same, b.held is_taken))).above;
  };
  message = tt;
}
close_lease-Sound c f l r lease t is_taken same slot inv leased = record {
  timeline = record {
    inv = inv;
    last = elim (from_zero c f l r lease t is_taken same leased).last [
      | inl kept ↦ omega (arith, kept, t.last)
      | inr (e, now) ↦ cc e
    ];
    last_held = λ h. elim (from_zero c f l r lease t is_taken same leased).last [
      | inl kept ↦ omega (arith, kept, t.last_held is_taken)
      | inr (e, now) ↦ cc e
    ];
    pending = t.pending;
  };
  owned = λ Q o. record {
    pending = o.pending;
    held = o.held;
    leased =
        (leased (λ frame. Q frame.slot frame.ready_value) o.leased
          (taken_Q Q c f same slot (o.held is_taken))).above;
  };
  latest = omega arith;
  below = λ w b. record {
    bound = b.bound;
    held = b.held;
    leased =
        (leased (λ frame. w < frame.ready_value) b.leased
          (omega (arith, same, b.held is_taken))).above;
  };
  message = tt;
}

lease_frame_cases {ℓ} :
    (P : Consumer × FlResult × Option ℕ → Type ℓ) (c : Consumer) (f : Frame)
    → ((r : FlResult) → P (c, r, none))
    → (c.frame_held ≡ true
        → f.ready_value ≡ c.held_ready
        → f.slot ≡ c.held_slot
        → P (close_lease c (acquire c.readers c.info.generation f)))
    → P (lease_frame c f)
unfolding lease_frame is_held
lease_frame_cases P c f refused leased =
    elim (Bool-cases (not (has_flag c.flags defer_release) || has_flag c.flags gpu_sync)) [
      | inl other ↦ rw other (refused invalid)
      | inr fits ↦ rw fits (elim (Bool-cases (is_held_image c f)) [
        | inr free ↦ rw free (refused invalid)
        | inl held ↦
            rw held (leased (ground (arith, held)) (ground (arith, held)) (ground (arith, held)))
      ])
    ]

pub lease_frame-Sound :
    (c : Consumer) (f : Frame) → Timeline c → Sound c ((lease_frame c f).0, none)
lease_frame-Sound c f t =
    lease_frame_cases (λ x. Sound c (x.0, none)) c f (λ r. unchanged)
      (λ is_taken same slot.
        let o = acquire c.readers c.info.generation f in
        close_lease-Sound c f o.0 o.1 o.2 t is_taken same slot
          (acquire-Inv c.readers c.info.generation f t.inv)
          (λ P a here. acquire-Taken P c.readers c.info.generation f t.inv a here))
  where
    unchanged : Sound c (c, none)
    unchanged = record {
      timeline = t;
      owned = λ Q o. o;
      latest = omega arith;
      below = λ w b. b;
      message = tt;
    }

pub complete_read_lease_sync_fd-Leaves :
    (duplicated : Bool) (c : Consumer) (t fd : ℕ)
    → Leaves c (complete_read_lease_sync_fd duplicated c t fd).0
unfolding complete_read_lease_sync_fd
complete_read_lease_sync_fd-Leaves duplicated c t fd = elim (Option-cases (get c.readers t)) [
  | inl dead ↦ rw (dead, complete_read_lease_sync_fd) (same_Leaves c)
  | inr (x, alive) ↦
      rw (alive, complete_read_lease_sync_fd)
        (placed (place_completion (record { token = t; fd = some fd }) c.completions))
]
  where
    closed :
        (es : List Completion) (l : Ledger) (r : FlResult)
        → Retains c.readers l
        → Leaves c (close_defer c es (l, r)).0
    closed es l ok k = changed_readers c l es k
    closed es l r k = changed_readers c l c.completions k

    by_duplicate :
        (b : Bool) (es : List Completion)
        → Leaves c (if b then close_defer c es (defer c.readers t) else (c, invalid)).0
    by_duplicate true es =
        closed es (defer c.readers t).0 (defer c.readers t).1 (defer-Retains c.readers t)
    by_duplicate false es = same_Leaves c

    placed : (o : Option (List Completion)) → Leaves c (defer_placed duplicated c t o).0
    placed none = same_Leaves c
    placed (some es) = by_duplicate duplicated es

-- The value that retires is below each frame that has a reader, and below the held one.
retirement-IsBelow : (c : Consumer) → Timeline c → IsBelow (retirement c.readers).value c
retirement-IsBelow c t = record {
  bound = omega (arith, retirement-le-last c.readers t.inv, t.last);
  held = λ h. omega (arith, retirement-le-last c.readers t.inv, t.last_held h);
  leased = retirement-IsAbove c.readers t.inv;
}

retires-MessageBelow :
    (c e : Consumer) (m : Option Release)
    → Timeline c
    → Leaves c e
    → ((x : Release) → m ≡ some x → x.value ≡ (retirement c.readers).value)
    → MessageBelow e m
retires-MessageBelow c e m t s value = MessageBelow-cases e m (λ x sent.
    subst (λ w. IsBelow w e) (sym (value x sent))
      (Leaves-IsBelow (retirement c.readers).value c e t s (retirement-IsBelow c t)))

-- The end of a collection: the value that retires is below the frames that are still read.
close_collect-Sound :
    (c d : Consumer) (r : FlResult) (m : Option Release)
    → Timeline c
    → Leaves c d
    → ((x : Release) → m ≡ some x → x.value ≡ (retirement c.readers).value)
    → Sound c (
      (close_collect (d, r, m) ((retirement c.readers).generation, (retirement c.readers).value)).0,
      (close_collect (d, r, m) ((retirement c.readers).generation, (retirement c.readers).value)).2,
    )
close_collect-Sound c d ok m t s value =
    let v = retirement c.readers in
    let e = with_readers d (retired d.readers v).0 in
    let l =
      Leaves-trans c d e s
        (changed_readers d (retired d.readers v).0 d.completions (retired-Retains d.readers v)) in
    Leaves-Sound c e m t l (retires-MessageBelow c e m t l value)
close_collect-Sound c d r m t s value =
    Leaves-Sound c d m t s (retires-MessageBelow c d m t s value)

retire_message :
    (sent : Bool) (c : Consumer) (value : ℕ) (r : Release)
    → (retire_read_leases sent c value).2 ≡ some r
    → r.value ≡ value
unfolding retire_read_leases
retire_message sent c value r h = ground (arith, h)

collect_retired-Sound :
    (sent : Bool) (c : Consumer)
    → Timeline c
    → Sound c ((collect_retired sent c).0, (collect_retired sent c).2)
collect_retired-Sound sent c t =
    either ((retirement c.readers).value == 0) (if empty c.readers then ok else busy) _ (
      close_collect-Sound c o.0 o.1 o.2 t
        (retire_read_leases-Leaves sent c (retirement c.readers).value)
        (retire_message sent c (retirement c.readers).value))
  where
    o : Consumer × FlResult × Option Release
    o = retire_read_leases sent c (retirement c.readers).value

    either :
        (b : Bool) (r : FlResult) (x : Consumer × FlResult × Option Release)
        → Sound c (x.0, x.2)
        → Sound c ((if b then (c, r, none) else x).0, (if b then (c, r, none) else x).2)
    either true r x h = record {
      timeline = t;
      owned = λ Q o. o;
      latest = omega arith;
      below = λ w b. b;
      message = tt;
    }
    either false r x h = h

pub collect_read_leases-Sound :
    (sent : Bool) (polled : ℕ → Polled) (c : Consumer)
    → Timeline c
    → Sound c ((collect_read_leases sent polled c).0, (collect_read_leases sent polled c).2)
unfolding collect_read_leases
collect_read_leases-Sound sent polled c t =
    let o = poll_completions polled c.readers c.completions in
    closed o.0 o.1 o.2 (poll_completions-Retains polled c.readers c.completions)
  where
    closed :
        (l : Ledger) (r : FlResult) (es : List Completion)
        → Retains c.readers l
        → Sound c ((collect_polled sent c (l, r, es)).0, (collect_polled sent c (l, r, es)).2)
    closed l ok es k =
        let d = record c { readers = l; completions = es } in
        let s = changed_readers c l es k in
        let o = collect_retired-Sound sent d (Leaves-Timeline c d s t) in
        record {
          timeline = o.timeline;
          owned = λ Q x. o.owned Q (Leaves-Owned Q c d t s x);
          latest = omega (arith, o.latest, Leaves-newest c d t s);
          below = λ w b. o.below w (Leaves-IsBelow w c d t s b);
          message = o.message;
        }
    closed l r es k =
        Leaves-Sound c (record c { readers = l; completions = es }) none t
          (changed_readers c l es k) tt
