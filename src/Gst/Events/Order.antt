-- ===== src/Gst/Events/Order.antt =====
-- The order of the events on the channel of src/gst/fl_gst_event_channel.hpp.
use mathlib.Core.List.{append-nil, append_assoc}
use framelink.Base.{
  ℕ, ◌^◌, ◌<◌, ◌≡◌, refl, sym, ap, ◌∙◌, subst, Bool, true, false, not, ◌||◌, none, List, [], ◌∷◌,
  ◌++◌, ltb, leb, ◌==◌, if◌then◌else◌, length, All,
}
use framelink.Api.{u64_max}
use framelink.Gst.Events.{timed_out, cancelled, VideoEvent, BigEndian, valid_event, video_flush}
use framelink.Gst.Events.Fifo.{
  Op, Seen, Fifo, new_link, no_events, fifo_written, fifo_send, fifo_deliver, fifo_take, fifo_step,
  fifo_run, link_run, sent_of, received_of, each, send, deliver, cut, receive, received,
}
use framelink.Gst.Events.Simulation.{BoundedOp, run_refines}

-- What was taken for sending and not yet received.
abbrev pending : Fifo → List VideoEvent
pending q = q.waiting ++ q.in_flight

-- A step moves what it sends and receives through what is pending.
abbrev Accounts : Fifo → Fifo × Seen → Type 0
Accounts q (q', x) = pending q ++ sent_of x ≡ received_of x ++ pending q'

Accounts-if :
    (q : Fifo) (b : Bool) (x y : Fifo × Seen)
    → Accounts q x
    → Accounts q y
    → Accounts q (if b then x else y)
Accounts-if q true x y h k = h
Accounts-if q false x y h k = k

idle_send : (q : Fifo) → pending q ++ [] ≡ pending q
idle_send q = append-nil (pending q)

written-Accounts : (q : Fifo) (e : VideoEvent) (done : Bool) → Accounts q (fifo_written q e done)
written-Accounts q e true = append_assoc q.waiting q.in_flight (e ∷ [])
written-Accounts q e false = idle_send q

deliver-pending :
    (q : Fifo) (es : List VideoEvent) → q.in_flight ≡ es → pending q ≡ pending (fifo_deliver q es)
unfolding fifo_deliver
deliver-pending q [] here = refl
deliver-pending q (e ∷ es) here =
    chosen q.broken (e.kind == video_flush || leb 32 (length q.waiting))
  where
    chosen :
        (a b : Bool)
        → pending q
          ≡ pending (
              if a
              then q
              else if b
              then record q { broken = true }
              else record q { in_flight = es; waiting = q.waiting ++ e ∷ [] })
    chosen true b = refl
    chosen false true = refl
    chosen false false = ap (◌++◌ q.waiting) here ∙ sym (append_assoc q.waiting (e ∷ []) es)

take-Accounts : (q : Fifo) (es : List VideoEvent) → q.waiting ≡ es → Accounts q (fifo_take q es)
take-Accounts q [] here = chosen q.broken
  where
    chosen :
        (b : Bool)
        → pending q ++ []
          ≡ received_of (received (if b then cancelled else timed_out) none) ++ pending q
    chosen true = idle_send q
    chosen false = idle_send q
take-Accounts q (e ∷ es) here = append-nil (pending q) ∙ ap (λ xs. xs ++ q.in_flight) here

step-Accounts : (q : Fifo) (o : Op) → Accounts q (fifo_step q o)
unfolding fifo_step fifo_send
step-Accounts q (send e done) = Accounts-if q (not (valid_event e)) _ _ (idle_send q) (
    Accounts-if q q.closed _ _ (idle_send q)
      (Accounts-if q (q.count == u64_max) _ _ (idle_send q) (written-Accounts q e done)))
step-Accounts q deliver = idle_send q ∙ deliver-pending q q.in_flight refl
step-Accounts q cut = idle_send q
step-Accounts q (receive t) =
    Accounts-if q (ltb 60000 t) _ _ (idle_send q) (take-Accounts q q.waiting refl)

fifo_run-pending :
    (q : Fifo) (os : List Op)
    → (rest : List VideoEvent) × (pending q ++ each sent_of (fifo_run q os)
        ≡ each received_of (fifo_run q os) ++ rest)
unfolding fifo_run
fifo_run-pending q [] = (pending q, idle_send q)
fifo_run-pending q (o ∷ os) =
    let (q', x) = fifo_step q o in
    let (rest, e) = fifo_run-pending q' os in
    (
      rest,
      sym (append_assoc (pending q) (sent_of x) (each sent_of (fifo_run q' os)))
          ∙ ap (λ xs. xs ++ each sent_of (fifo_run q' os)) (step-Accounts q o)
          ∙ append_assoc (received_of x) (pending q') (each sent_of (fifo_run q' os))
          ∙ ap (◌++◌ (received_of x)) e
          ∙ sym (append_assoc (received_of x) (each received_of (fifo_run q' os)) rest),
    )

-- On two new ends of an event channel with one generation, whatever is sent, arrives, is lost or is
-- received: the events that the consumer has received are an initial part of those that the producer
-- has sent, in their order, each with the fields that it was sent with.
pub link_run_ordered :
    (be : BigEndian) (stream peer generation idle : ℕ) (os : List Op)
    → generation < 2 ^ 64
    → All BoundedOp os
    → let seen = link_run be (new_link stream peer generation idle) os in
      (rest : List VideoEvent) × (each sent_of seen ≡ each received_of seen ++ rest)
link_run_ordered be stream peer generation idle os word bounded =
    subst (λ seen. (rest : List VideoEvent) × (each sent_of seen ≡ each received_of seen ++ rest))
      (sym (run_refines be stream peer generation idle os word bounded))
      (fifo_run-pending no_events os)
