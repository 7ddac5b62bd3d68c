-- ===== src/Gst/Events/Arrival.antt =====
-- The queue of events that the channel of src/gst/fl_gst_event_channel.hpp implements: what the two agree
-- on, and the arrival of messages.
use framelink.Base.{
  ℕ, ◌+◌, ◌^◌, ◌≤◌, ◌<◌, ◌≡◌, refl, sym, ap, ap₂, ◌∙◌, subst, Bool, true, false, ◌||◌, List, [],
  ◌∷◌, ◌++◌, leb, ◌==◌, if◌then◌else◌, length, All, arith, Bool-cases, inl, inr,
}
use framelink.Api.{u64_max}
use framelink.Gst.Events.{
  VideoEvent, BigEndian, EventChannel, fail, valid_event, event_message, read_message, push_event,
  accept_event, video_flush,
}
use framelink.Gst.Events.Delivery.{IsBounded, read_event-message, bad_message-message}
use framelink.Gst.Events.Fifo.{Link, Fifo, fifo_deliver, link_deliver}

abbrev pub Sendable : VideoEvent → Type 0
Sendable e = (valid_event e ≡ true) × IsBounded e

module _ (be : BigEndian) where
  -- The messages of the events in flight, numbered from k + 1.
  abbrev pub messages : ℕ → ℕ → List VideoEvent → List (List ℕ)
  messages g k [] = []
  messages g k (e ∷ es) = event_message be g e (k + 1) ∷ messages g (k + 1) es

  pub messages-append :
      (g k : ℕ) (es : List VideoEvent) (e : VideoEvent)
      → messages g k (es ++ e ∷ [])
        ≡ messages g k es ++ event_message be g e (k + length es + 1) ∷ []
  messages-append g k [] e = ap (λ n. event_message be g e n ∷ []) (omega arith)
  messages-append g k (f ∷ es) e = ap (◌∷◌ (event_message be g f (k + 1))) (
      messages-append g (k + 1) es e
      ∙ ap (λ n. messages g (k + 1) es ++ event_message be g e n ∷ []) (omega arith))

  read_message-cancelled :
      (c : EventChannel) (w : List ℕ) → c.is_cancelled ≡ true → read_message be c w ≡ c
  unfolding read_message accept_event
  read_message-cancelled c w h = ground (arith, h)

  read_message-message :
      (c : EventChannel) (e : VideoEvent)
      → c.is_cancelled ≡ false
      → c.generation < 2 ^ 64
      → c.serial + 1 ≤ u64_max
      → Sendable e
      → read_message be c (event_message be c.generation e (c.serial + 1)) ≡ (
          if e.kind == video_flush || leb 32 (length c.queue)
          then fail c
          else record c { serial = c.serial + 1; queue = c.queue ++ e ∷ [] })
  unfolding read_message accept_event push_event
  read_message-message c e live word few (valid, bounded) =
      ap₂ (accept_event c)
        (bad_message-message be c.generation e (c.serial + 1) valid bounded c refl word refl few)
        (read_event-message be c.generation e (c.serial + 1) valid bounded)
      ∙ ground (arith, live, valid)

  -- What the messages on the stream are, as long as the reader has not failed.
  pub record Flowing (l : Link) (q : Fifo) : Type 0 where
    pub wire : l.wire ≡ messages l.receiver.generation l.receiver.serial q.in_flight
    pub numbered : q.closed ≡ false → l.receiver.serial + length q.in_flight ≡ q.count
    pub below : l.receiver.serial + length q.in_flight ≤ q.count
    pub sendable : All Sendable q.in_flight

  pub record Implements (l : Link) (q : Fifo) : Type 0 where
    pub producer : l.sender.producer ≡ true
    pub consumer : l.receiver.producer ≡ false
    pub generation : l.sender.generation ≡ l.receiver.generation
    pub word : l.receiver.generation < 2 ^ 64
    pub send_failed : l.sender.failed ≡ q.closed
    pub send_cancelled : l.sender.is_cancelled ≡ q.closed
    pub count : l.sender.sent ≡ q.count
    pub few : q.count ≤ u64_max
    pub read_failed : l.receiver.failed ≡ q.broken
    pub read_cancelled : l.receiver.is_cancelled ≡ q.broken
    pub queue : l.receiver.queue ≡ q.waiting
    pub flowing : q.broken ≡ false → Flowing l q

  module _ (l : Link) (q : Fifo) (imp : Implements l q) where
    -- A reader that has failed leaves the stream alone.
    still : (ws : List (List ℕ)) → q.broken ≡ true → Implements (record l { wire = ws }) q
    still ws h = record {
      producer = imp.producer;
      consumer = imp.consumer;
      generation = imp.generation;
      word = imp.word;
      send_failed = imp.send_failed;
      send_cancelled = imp.send_cancelled;
      count = imp.count;
      few = imp.few;
      read_failed = imp.read_failed;
      read_cancelled = imp.read_cancelled;
      queue = imp.queue;
      flowing = λ live. absurd (no h live);
    }
      where
        no : q.broken ≡ true → q.broken ≡ false → ⊥
        no h live = cc

    pub lost :
        (ws : List (List ℕ))
        → Implements
            (record l { wire = ws; receiver = fail l.receiver })
            (record q { broken = true })
    lost ws = record {
      producer = imp.producer;
      consumer = imp.consumer;
      generation = imp.generation;
      word = imp.word;
      send_failed = imp.send_failed;
      send_cancelled = imp.send_cancelled;
      count = imp.count;
      few = imp.few;
      read_failed = refl;
      read_cancelled = refl;
      queue = imp.queue;
      flowing = λ live. absurd (no live);
    }
      where
        no : true ≡ false → ⊥
        no h = cc

    -- An event that is queued leaves the rest in flight.
    queued :
        (e : VideoEvent) (es : List VideoEvent)
        → q.in_flight ≡ e ∷ es
        → q.broken ≡ false
        → let c = l.receiver in
          Implements
            (record l {
              wire = messages c.generation (c.serial + 1) es;
              receiver = record c { serial = c.serial + 1; queue = c.queue ++ e ∷ [] };
            })
            (record q { in_flight = es; waiting = q.waiting ++ e ∷ [] })
    queued e es here live = record {
      producer = imp.producer;
      consumer = imp.consumer;
      generation = imp.generation;
      word = imp.word;
      send_failed = imp.send_failed;
      send_cancelled = imp.send_cancelled;
      count = imp.count;
      few = imp.few;
      read_failed = imp.read_failed;
      read_cancelled = imp.read_cancelled;
      queue = ap (λ xs. xs ++ e ∷ []) imp.queue;
      flowing = λ _. record {
        wire = refl;
        numbered = λ h. omega (arith, flow.numbered h, ap length here);
        below = omega (arith, flow.below, ap length here);
        sendable = (subst (All Sendable) here flow.sendable).1;
      };
    }
      where
        flow : Flowing l q
        flow = imp.flowing live

  deliver_broken :
      (l : Link) (q : Fifo) (ws : List (List ℕ)) (es : List VideoEvent)
      → q.broken ≡ true
      → Implements l q
      → Implements (link_deliver be l ws) (fifo_deliver q es)
  unfolding link_deliver fifo_deliver
  deliver_broken l q ws es h imp =
      subst (Implements (link_deliver be l ws)) (sym (stays es)) (moved ws)
    where
      stays : (es : List VideoEvent) → fifo_deliver q es ≡ q
      stays [] = refl
      stays (e ∷ es) = ground (arith, h)

      moved : (ws : List (List ℕ)) → Implements (link_deliver be l ws) q
      moved [] = imp
      moved (w ∷ ws) =
          subst (λ c. Implements (record l { wire = ws; receiver = c }) q)
            (sym (read_message-cancelled l.receiver w (imp.read_cancelled ∙ h)))
            (still l q imp ws h)

  -- Both sides at one event that arrives.
  deliver_event :
      (l : Link) (q : Fifo) (e : VideoEvent) (es : List VideoEvent) (c : EventChannel) (f : Bool)
      → q.in_flight ≡ e ∷ es
      → q.broken ≡ false
      → Implements l q
      → c ≡ (
          if f then fail l.receiver else record l.receiver {
            serial = l.receiver.serial + 1;
            queue = l.receiver.queue ++ e ∷ [];
          })
      → Implements
          (record l {
            wire = messages l.receiver.generation (l.receiver.serial + 1) es;
            receiver = c;
          })
          (if f
            then record q { broken = true }
            else record q { in_flight = es; waiting = q.waiting ++ e ∷ [] })
  deliver_event l q e es c true here live imp ec =
      let ms = messages l.receiver.generation (l.receiver.serial + 1) es in
      subst (λ c. Implements (record l { wire = ms; receiver = c }) (record q { broken = true }))
        (sym ec) (lost l q imp ms)
  deliver_event l q e es c false here live imp ec =
      subst
        (λ c.
          Implements
            (record l {
              wire = messages l.receiver.generation (l.receiver.serial + 1) es;
              receiver = c;
            })
            (record q { in_flight = es; waiting = q.waiting ++ e ∷ [] }))
        (sym ec) (queued l q imp e es here live)

  fifo_deliver-nil : (q : Fifo) → q ≡ fifo_deliver q []
  unfolding fifo_deliver
  fifo_deliver-nil q = refl

  fifo_deliver-live :
      (q : Fifo) (e : VideoEvent) (es : List VideoEvent)
      → q.broken ≡ false
      → (if e.kind == video_flush || leb 32 (length q.waiting)
          then record q { broken = true }
          else record q { in_flight = es; waiting = q.waiting ++ e ∷ [] })
        ≡ fifo_deliver q (e ∷ es)
  unfolding fifo_deliver
  fifo_deliver-live q e es live = ground (arith, live)

  deliver_live :
      (l : Link) (q : Fifo) (es : List VideoEvent)
      → q.in_flight ≡ es
      → q.broken ≡ false
      → Implements l q
      → Implements
          (link_deliver be l (messages l.receiver.generation l.receiver.serial es))
          (fifo_deliver q es)
  unfolding link_deliver
  deliver_live l q [] here live imp = subst (Implements l) (fifo_deliver-nil q) imp
  deliver_live l q (e ∷ es) here live imp =
      let c = l.receiver in
      let flow = imp.flowing live in
      subst (Implements (link_deliver be l (messages c.generation c.serial (e ∷ es))))
        (fifo_deliver-live q e es live)
        (deliver_event l q e es (read_message be c (event_message be c.generation e (c.serial + 1)))
          (e.kind == video_flush || leb 32 (length q.waiting)) here live imp
          (read_message-message c e (imp.read_cancelled ∙ live) imp.word
              (omega (arith, flow.below, ap length here, imp.few))
              (subst (All Sendable) here flow.sendable).0
            ∙ ap
                (λ xs.
                  if e.kind == video_flush || leb 32 (length xs)
                  then fail c
                  else record c { serial = c.serial + 1; queue = c.queue ++ e ∷ [] })
                imp.queue))

  pub deliver-Implements :
      (l : Link) (q : Fifo)
      → Implements l q
      → Implements (link_deliver be l l.wire) (fifo_deliver q q.in_flight)
  deliver-Implements l q imp = elim (Bool-cases q.broken) [
    | inl h ↦ deliver_broken l q l.wire q.in_flight h imp
    | inr h ↦
        subst (λ ws. Implements (link_deliver be l ws) (fifo_deliver q q.in_flight))
          (sym (imp.flowing h).wire) (deliver_live l q q.in_flight refl h imp)
  ]
