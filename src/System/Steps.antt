-- ===== src/System/Steps.antt =====
-- The producer's and the consumer's calls as steps of a channel of src/framelink_linux.cpp.
use framelink.Base.{
  ℕ, ◌≤◌, ◌<◌, ◌≡◌, ◌≢◌, refl, sym, subst, Option, none, some, List, [], ◌∷◌, All, arith,
}
use framelink.Base.Int.{ℤ}
use framelink.Api.{FlResult, ok}
use framelink.Metadata.{FrameMetadata, Announced}
use framelink.Producer.{Release, Producer, Buffer}
use framelink.Producer.Submitted.{IsSubmitted}
use framelink.Producer.Ownership.{Action, act, act-IsSubmitted}
use framelink.Consumer.{Consumer}
use framelink.Consumer.Timeline.{Timeline, IsBelow, newest, MessageBelow}
use framelink.Consumer.Calls.{ConsumerCall, consume, MayCall, consume-Sound}
use framelink.System.{System, Among, IsQuiet, enqueue, announce, submission, tell}
use framelink.System.Invariant.{Agree, IsLent, Rising, next_value, Among-IsBelow, quiet-ActionBelow}
use framelink.System.Producing.{act-Counts, Submission, refused, given}

-- Values under way lie between the bounds.
pub Rising-mono :
    (lo lo' hi : ℕ) (xs : List (Announced × FrameMetadata))
    → lo' ≤ lo
    → Rising lo hi xs
    → Rising lo' hi xs
Rising-mono lo lo' hi [] le r = omega (arith, le, r)
Rising-mono lo lo' hi ((a, m) ∷ xs) le (h, r) = (omega (arith, le, h), r)

Rising-lt : (lo hi : ℕ) (xs : List (Announced × FrameMetadata)) → Rising lo hi xs → lo < hi
Rising-lt lo hi [] r = r
Rising-lt lo hi ((a, m) ∷ xs) (h, r) = omega (arith, h, Rising-lt a.value hi xs r)

Rising-enqueue :
    (lo hi hi' : ℕ) (xs : List (Announced × FrameMetadata)) (x : Announced × FrameMetadata)
    → Rising lo hi xs
    → x.0.value ≡ hi
    → x.0.value < hi'
    → Rising lo hi' (enqueue xs x)
Rising-enqueue lo hi hi' [] (a, m) r e h = (omega (arith, e, r), h)
Rising-enqueue lo hi hi' ((b, n) ∷ xs) x (k, r) e h = (k, Rising-enqueue b.value hi hi' xs x r e h)

Rising-raise :
    (lo hi hi' : ℕ) (xs : List (Announced × FrameMetadata))
    → hi ≤ hi'
    → Rising lo hi xs
    → Rising lo hi' xs
Rising-raise lo hi hi' [] le r = omega (arith, le, r)
Rising-raise lo hi hi' ((a, m) ∷ xs) le (h, r) = (h, Rising-raise a.value hi hi' xs le r)

unannounced :
    (r : FlResult) (xs : List (Announced × FrameMetadata)) (x : Announced × FrameMetadata)
    → r ≢ ok
    → announce r xs x ≡ xs
unannounced ok xs x failed = elim (failed refl) [ ]
unannounced _ xs x failed = refl

All-enqueue :
    (P : Announced × FrameMetadata → Type 0) (xs : List (Announced × FrameMetadata))
    (x : Announced × FrameMetadata)
    → All P xs
    → P x
    → All P (enqueue xs x)
All-enqueue P [] x a h = (h, tt)
All-enqueue P (y ∷ ys) x (k, a) h = (k, All-enqueue P ys x a h)

-- What was told is at most the value of the latest frame that was taken, and below each newer one.
pub newest_ge : (c : Consumer) → Timeline c → c.held_ready ≤ newest c
newest_ge c t = let newer = t.pending in ground (arith, newer)

module _ (s : System) (g : Agree s) where
  pub told-IsBelow : (w : ℕ) → Among w s.told → IsBelow w s.consumer
  told-IsBelow w h = Among-IsBelow s.consumer s.told w g.below h

  -- A quiet call keeps a slot that is lent, where what was told is below its value.
  act-IsLent :
      (a : Action) (i v : ℕ)
      → IsQuiet s.told a
      → ((w : ℕ) → Among w s.told → w < v)
      → IsLent s.producer i v
      → IsLent (act s.producer a) i v
  act-IsLent a i v quiet below lent =
      act-IsSubmitted s.producer a i v lent (quiet-ActionBelow s.told a v quiet below)

  told_lt_next : (w : ℕ) → Among w s.told → w < next_value s.producer
  told_lt_next w h = omega (
    arith,
    (told-IsBelow w h).bound,
    newest_ge s.consumer g.timeline,
    Rising-lt (newest s.consumer) (next_value s.producer) s.queue g.rising,
  )

  pub produced : (a : Action) → IsQuiet s.told a → Agree (record s { producer = act s.producer a })
  produced a quiet =
      let (counts, next) =
        act-Counts s.producer s.told a g.counts quiet
          (quiet-ActionBelow s.told a (next_value s.producer) quiet told_lt_next) in
      record {
        counts = counts;
        timeline = g.timeline;
        below = g.below;
        rising = subst (λ n. Rising (newest s.consumer) n s.queue) (sym next) g.rising;
        queued =
            still_queued (newest s.consumer) (next_value s.producer) s.queue g.rising (omega arith)
              g.queued;
        owned = record {
          pending = λ h.
              act-IsLent a _ _ quiet
                (λ w told. omega (arith, (told-IsBelow w told).bound, g.timeline.pending h))
                (g.owned.pending h);
          held =
              λ h. act-IsLent a _ _ quiet (λ w told. (told-IsBelow w told).held h) (g.owned.held h);
          leased = λ f h.
              act-IsLent a _ _ quiet (λ w told. (told-IsBelow w told).leased f h)
                (g.owned.leased f h);
        };
      }
    where
      still_queued :
          (lo hi : ℕ) (xs : List (Announced × FrameMetadata))
          → Rising lo hi xs
          → newest s.consumer ≤ lo
          → All (λ x. IsLent s.producer x.0.slot x.0.value) xs
          → All (λ x. IsLent (act s.producer a) x.0.slot x.0.value) xs
      still_queued lo hi [] r le q = tt
      still_queued lo hi ((b, m) ∷ xs) (h, r) le (l, q) = (
        act-IsLent a b.slot b.value quiet
            (λ w told.
              omega (arith, (told-IsBelow w told).bound, newest_ge s.consumer g.timeline, le, h))
            l,
        still_queued b.value hi xs r (omega (arith, le, h)) q,
      )

  -- A submission that the producer refuses, gives away, or gives away to a link that is down.
  pub submitted :
      (q : Producer) (r : FlResult) (b : Buffer) (value : ℕ) (pts : ℤ)
      → Submission s.producer b value q r
      → ((i v : ℕ) → IsSubmitted s.producer i v → IsSubmitted q i v)
      → Agree (record s {
        producer = q;
        queue = announce r s.queue (submission s.producer b value pts);
      })
  submitted q r b value pts (refused same failed) keeps =
      subst (λ xs. Agree (record s { producer = q; queue = xs }))
        (sym (unannounced r s.queue (submission s.producer b value pts) failed))
        (subst (λ p. Agree (record s { producer = p })) (sym same) g)
  submitted q r b value pts (given e) keeps =
      with_queue (announce r s.queue x)
        (announced (λ xs. Rising (newest s.consumer) (next_value q) xs) r
          (Rising-enqueue (newest s.consumer) (next_value s.producer) _ s.queue x g.rising
            e.was_next e.rises)
          (Rising-raise (newest s.consumer) (next_value s.producer) (next_value q) s.queue
            (omega (arith, e.was_next, e.rises)) g.rising))
        (announced (λ xs. All (λ x. IsLent q x.0.slot x.0.value) xs) r
          (All-enqueue _ s.queue x (still_queued s.queue g.queued) e.lent)
          (still_queued s.queue g.queued))
    where
      x : Announced × FrameMetadata
      x = submission s.producer b value pts

      announced :
          (P : List (Announced × FrameMetadata) → Type 0) (r : FlResult)
          → P (enqueue s.queue x)
          → P s.queue
          → P (announce r s.queue x)
      announced P ok more same = more
      announced P _ more same = same

      still_queued :
          (xs : List (Announced × FrameMetadata))
          → All (λ x. IsLent s.producer x.0.slot x.0.value) xs
          → All (λ x. IsLent q x.0.slot x.0.value) xs
      still_queued [] h = tt
      still_queued ((a, m) ∷ xs) (l, h) = (keeps a.slot a.value l, still_queued xs h)

      with_queue :
          (xs : List (Announced × FrameMetadata))
          → Rising (newest s.consumer) (next_value q) xs
          → All (λ x. IsLent q x.0.slot x.0.value) xs
          → Agree (record s { producer = q; queue = xs })
      with_queue xs rising queued = record {
        counts = e.counts;
        timeline = g.timeline;
        below = g.below;
        rising = rising;
        queued = queued;
        owned = record {
          pending = λ k. keeps _ _ (g.owned.pending k);
          held = λ k. keeps _ _ (g.owned.held k);
          leased = λ f k. keeps _ _ (g.owned.leased f k);
        };
      }

  pub consumed :
      (a : ConsumerCall)
      → MayCall s.consumer a
      → Agree (record s {
        consumer = (consume s.consumer a).0;
        told = tell s.told (consume s.consumer a).1;
      })
  consumed a may =
      let o = consume-Sound s.consumer a g.timeline may in
      record {
        counts = g.counts;
        timeline = o.timeline;
        below =
            told_more (consume s.consumer a).1 o.message
              (still_below s.told (λ w. o.below w) g.below);
        rising =
            Rising-mono (newest s.consumer) _ (next_value s.producer) s.queue o.latest g.rising;
        queued = g.queued;
        owned = o.owned (IsLent s.producer) g.owned;
      }
    where
      still_below :
          (ws : List ℕ)
          → ((w : ℕ) → IsBelow w s.consumer → IsBelow w (consume s.consumer a).0)
          → All (λ w. IsBelow w s.consumer) ws
          → All (λ w. IsBelow w (consume s.consumer a).0) ws
      still_below [] keep b = tt
      still_below (w ∷ ws) keep (b, bs) = (keep w b, still_below ws keep bs)

      told_more :
          (m : Option Release)
          → MessageBelow (consume s.consumer a).0 m
          → All (λ w. IsBelow w (consume s.consumer a).0) s.told
          → All (λ w. IsBelow w (consume s.consumer a).0) (tell s.told m)
      told_more none h b = b
      told_more (some r) h b = (h, b)
