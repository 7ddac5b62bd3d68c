-- ===== src/Gst/Events/Simulation.antt =====
-- The channel of src/gst/fl_gst_event_channel.hpp implements the queue of events, step by step.
use framelink.Base.{
  ℕ, ◌+◌, ◌^◌, ◌<◌, ◌≡◌, refl, sym, ap, ap₂, ◌∙◌, subst, Bool, true, false, not, ◌||◌, Option, none,
  List, [], ◌∷◌, ◌++◌, ltb, ◌==◌, if◌then◌else◌, All, All-append, length-append, arith, Bool-cases,
  inl, inr,
}
use framelink.Api.{u64_max}
use framelink.Gst.Events.{
  GstResult, timed_out, cancelled, invalid, VideoEvent, BigEndian, EventChannel, fail, lose_stream,
  valid_event, event_message, after_write, send_event, take_event, receive_event,
}
use framelink.Gst.Events.Delivery.{IsBounded}
use framelink.Gst.Events.Fifo.{
  Op, Seen, Link, new_link, Fifo, no_events, fifo_written, fifo_send, fifo_take, fifo_step,
  fifo_run, sent_link, link_send, sent_link, got_link, link_step, link_run, send, deliver, cut,
  receive, sent, received,
}
use framelink.Gst.Events.Arrival.{
  messages, messages-append, Sendable, Implements, lost, deliver-Implements,
}

abbrev pub BoundedOp : Op → Type 0
BoundedOp (send e done) = IsBounded e
BoundedOp deliver = Unit {0}
BoundedOp cut = Unit {0}
BoundedOp (receive t) = Unit {0}

module _ (be : BigEndian) where
  -- The callers see the same, and the channel goes on implementing the queue.
  abbrev Matches : Link × Seen → Fifo × Seen → Type 0
  Matches (l, x) (q, y) = (x ≡ y) × Implements be l q

  Matches-if :
      (b : Bool) {x y : Link × Seen} {x' y' : Fifo × Seen}
      → (b ≡ true → Matches x x')
      → (b ≡ false → Matches y y')
      → Matches (if b then x else y) (if b then x' else y')
  Matches-if true h k = h refl
  Matches-if false h k = k refl

  got_link-if :
      (l : Link) (b : Bool) (x y : EventChannel × GstResult × Option VideoEvent)
      → got_link l (if b then x else y) ≡ (if b then got_link l x else got_link l y)
  got_link-if l true x y = refl
  got_link-if l false x y = refl

  sent_link-if :
      (l : Link) (e : VideoEvent) (a b c : Bool)
      (x y z w : EventChannel × GstResult × Option (List ℕ))
      → sent_link l e (if a then x else if b then y else if c then z else w) ≡ (
          if a
          then sent_link l e x
          else if b
          then sent_link l e y
          else if c
          then sent_link l e z
          else sent_link l e w)
  sent_link-if l e true b c x y z w = refl
  sent_link-if l e false true c x y z w = refl
  sent_link-if l e false false true x y z w = refl
  sent_link-if l e false false false x y z w = refl

  module _ (l : Link) (q : Fifo) (imp : Implements be l q) where
    send_event_lem :
        (e : VideoEvent) (done : Bool)
        → send_event be l.sender e done ≡ (
            if not (valid_event e)
            then (l.sender, invalid, none)
            else if q.closed
            then (l.sender, cancelled, none)
            else if q.count == u64_max
            then (l.sender, invalid, none)
            else after_write be (record l.sender { sent = l.sender.sent + 1 }) e done)
    unfolding send_event
    send_event_lem e done =
        ground (arith, imp.producer, imp.send_failed, imp.send_cancelled, imp.count)

    link_send_lem :
        (e : VideoEvent) (done : Bool)
        → link_send be l e done ≡ (
            if not (valid_event e)
            then (l, sent e invalid)
            else if q.closed
            then (l, sent e cancelled)
            else if q.count == u64_max
            then (l, sent e invalid)
            else sent_link l e
                (after_write be (record l.sender { sent = l.sender.sent + 1 }) e done))
    unfolding link_send
    link_send_lem e done =
        ap (sent_link l e) (send_event_lem e done)
        ∙ sent_link-if l e (not (valid_event e)) q.closed (q.count == u64_max)
            (l.sender, invalid, none) (l.sender, cancelled, none) (l.sender, invalid, none)
            (after_write be (record l.sender { sent = l.sender.sent + 1 }) e done)

    after_write-Matches :
        (e : VideoEvent) (done : Bool)
        → Sendable e
        → q.closed ≡ false
        → (q.count == u64_max) ≡ false
        → Matches
            (sent_link l e (after_write be (record l.sender { sent = l.sender.sent + 1 }) e done))
            (fifo_written q e done)
    after_write-Matches e true ok open_ few = (
      refl,
      record {
        producer = imp.producer;
        consumer = imp.consumer;
        generation = imp.generation;
        word = imp.word;
        send_failed = imp.send_failed;
        send_cancelled = imp.send_cancelled;
        count = ap (λ n. n + 1) imp.count;
        few = ground (arith, imp.few, few);
        read_failed = imp.read_failed;
        read_cancelled = imp.read_cancelled;
        queue = imp.queue;
        flowing = λ live. record {
          wire =
              ap₂ (λ ws g. ws ++ event_message be g e (l.sender.sent + 1) ∷ [])
                (imp.flowing live).wire imp.generation
              ∙ ap
                  (λ n.
                    messages be l.receiver.generation l.receiver.serial q.in_flight
                    ++ event_message be l.receiver.generation e n ∷ [])
                  (omega (arith, imp.count, (imp.flowing live).numbered open_))
              ∙ sym (messages-append be l.receiver.generation l.receiver.serial q.in_flight e);
          numbered =
              λ h. omega (arith, (imp.flowing live).numbered h, length-append q.in_flight (e ∷ []));
          below = omega (arith, (imp.flowing live).below, length-append q.in_flight (e ∷ []));
          sendable = All-append Sendable q.in_flight (e ∷ []) (imp.flowing live).sendable (ok, tt);
        };
      },
    )
    after_write-Matches e false ok open_ few = (
      refl,
      record {
        producer = imp.producer;
        consumer = imp.consumer;
        generation = imp.generation;
        word = imp.word;
        send_failed = refl;
        send_cancelled = refl;
        count = ap (λ n. n + 1) imp.count;
        few = ground (arith, imp.few, few);
        read_failed = imp.read_failed;
        read_cancelled = imp.read_cancelled;
        queue = imp.queue;
        flowing = λ live. record {
          wire = (imp.flowing live).wire;
          numbered = λ h. absurd (no h);
          below = omega (arith, (imp.flowing live).below);
          sendable = (imp.flowing live).sendable;
        };
      },
    )
      where
        no : true ≡ false → ⊥
        no h = cc

    send-Matches :
        (e : VideoEvent) (done : Bool)
        → IsBounded e
        → Matches (link_send be l e done) (fifo_send q e done)
    unfolding fifo_send
    send-Matches e done bounded =
        subst (λ x. Matches x (fifo_send q e done)) (sym (link_send_lem e done))
          (Matches-if (not (valid_event e)) (λ _. (refl, imp))
            (λ valid.
              Matches-if q.closed (λ _. (refl, imp))
                (λ open_.
                  Matches-if (q.count == u64_max) (λ _. (refl, imp))
                    (λ few.
                      after_write-Matches e done (ground (arith, valid), bounded) open_ few))))

    cut-Implements :
        Implements be (record l { receiver = lose_stream l.receiver }) (record q { broken = true })
    unfolding lose_stream
    cut-Implements = elim (Bool-cases l.receiver.is_cancelled) [
      | inl h ↦
          subst (λ c. Implements be (record l { receiver = c }) (record q { broken = true }))
            (sym (lost_already h))
            (subst (Implements be l) (λ i. record q { broken = (sym imp.read_cancelled ∙ h) i })
              imp)
      | inr h ↦
          subst (λ c. Implements be (record l { receiver = c }) (record q { broken = true }))
            (sym (lost_now h)) (lost be l q imp l.wire)
    ]
      where
        lost_already : l.receiver.is_cancelled ≡ true → lose_stream l.receiver ≡ l.receiver
        lost_already h = ground (arith, h)

        lost_now : l.receiver.is_cancelled ≡ false → lose_stream l.receiver ≡ fail l.receiver
        lost_now h = ground (arith, h)

    -- What a receive gives, by what waits.
    take-Matches :
        (es : List VideoEvent)
        → q.waiting ≡ es
        → Matches (got_link l (take_event l.receiver es)) (fifo_take q es)
    take-Matches [] here =
        (ap (λ r. received r none) (ended imp.read_failed imp.read_cancelled), imp)
      where
        ended :
            l.receiver.failed ≡ q.broken
            → l.receiver.is_cancelled ≡ q.broken
            → (if l.receiver.failed || l.receiver.is_cancelled then cancelled else timed_out)
              ≡ (if q.broken then cancelled else timed_out)
        ended f c = ground (arith, f, c)
    take-Matches (e ∷ es) here = (
      refl,
      record {
        producer = imp.producer;
        consumer = imp.consumer;
        generation = imp.generation;
        word = imp.word;
        send_failed = imp.send_failed;
        send_cancelled = imp.send_cancelled;
        count = imp.count;
        few = imp.few;
        read_failed = imp.read_failed;
        read_cancelled = imp.read_cancelled;
        queue = refl;
        flowing = λ live. record {
          wire = (imp.flowing live).wire;
          numbered = (imp.flowing live).numbered;
          below = (imp.flowing live).below;
          sendable = (imp.flowing live).sendable;
        };
      },
    )

    receive_event_lem :
        (t : ℕ)
        → receive_event l.receiver t
          ≡ (if ltb 60000 t then (l.receiver, invalid, none) else take_event l.receiver q.waiting)
    unfolding receive_event
    receive_event_lem t =
        if_consumer l.receiver.producer imp.consumer
        ∙ ap (λ es. if ltb 60000 t then (l.receiver, invalid, none) else take_event l.receiver es)
            imp.queue
      where
        if_consumer :
            (p : Bool)
            → p ≡ false
            → (if p || ltb 60000 t
                then (l.receiver, invalid, none)
                else take_event l.receiver l.receiver.queue)
              ≡ (if ltb 60000 t
                  then (l.receiver, invalid, none)
                  else take_event l.receiver l.receiver.queue)
        if_consumer p h = rw h refl

    receive-Matches : (t : ℕ) → Matches (link_step be l (receive t)) (fifo_step q (receive t))
    unfolding link_step fifo_step
    receive-Matches t =
        subst (λ x. Matches x (fifo_step q (receive t)))
          (sym (
            ap (got_link l) (receive_event_lem t)
            ∙ got_link-if l (ltb 60000 t) (l.receiver, invalid, none)
                (take_event l.receiver q.waiting)))
          (Matches-if (ltb 60000 t) (λ _. (refl, imp)) (λ _. take-Matches q.waiting refl))

  step-Matches :
      (l : Link) (q : Fifo) (o : Op)
      → Implements be l q
      → BoundedOp o
      → Matches (link_step be l o) (fifo_step q o)
  unfolding link_step fifo_step
  step-Matches l q (send e done) imp bounded = send-Matches l q imp e done bounded
  step-Matches l q deliver imp bounded = (refl, deliver-Implements be l q imp)
  step-Matches l q cut imp bounded = (refl, cut-Implements l q imp)
  step-Matches l q (receive t) imp bounded = receive-Matches l q imp t

  run-Implements :
      (l : Link) (q : Fifo) (os : List Op)
      → Implements be l q
      → All BoundedOp os
      → link_run be l os ≡ fifo_run q os
  unfolding link_run fifo_run
  run-Implements l q [] imp bounded = refl
  run-Implements l q (o ∷ os) imp bounded =
      let (same, next) = step-Matches l q o imp bounded.0 in
      ap₂ ◌∷◌ same (run-Implements (link_step be l o).0 (fifo_step q o).0 os next bounded.1)

  -- Two new ends of an event channel with one generation, over one stream: no sequence of sends,
  -- arrivals, losses of the stream and receives tells them from the queue of events, which is bounded,
  -- knows of no bytes and serial numbers, and breaks at a flush or at the 33rd event that waits.
  pub run_refines :
      (stream peer generation idle : ℕ) (os : List Op)
      → generation < 2 ^ 64
      → All BoundedOp os
      → link_run be (new_link stream peer generation idle) os ≡ fifo_run no_events os
  run_refines stream peer generation idle os word bounded =
      run-Implements (new_link stream peer generation idle) no_events os
        (record {
          producer = refl;
          consumer = refl;
          generation = refl;
          word = word;
          send_failed = refl;
          send_cancelled = refl;
          count = refl;
          few = omega arith;
          read_failed = refl;
          read_cancelled = refl;
          queue = refl;
          flowing = λ _. record {
            wire = refl;
            numbered = λ _. omega arith;
            below = omega arith;
            sendable = tt;
          };
        })
        bounded
