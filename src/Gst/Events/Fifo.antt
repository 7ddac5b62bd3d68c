-- ===== src/Gst/Events/Fifo.antt =====
-- The two ends of the event channel of src/gst/fl_gst_event_channel.hpp over one stream, against a
-- queue of events that knows of no bytes, generations and serial numbers.
use framelink.Base.{
  ℕ, ◌+◌, Bool, true, false, not, ◌||◌, Option, none, some, List, [], ◌∷◌, ◌++◌, ltb, leb, ◌==◌,
  if◌then◌else◌, length,
}
use framelink.Api.{u64_max}
use framelink.Gst.Events.{
  GstResult, ready, timed_out, cancelled, invalid, VideoEvent, BigEndian, EventChannel, new_events,
  lose_stream, valid_event, read_message, video_flush, send_event, receive_event,
}

-- What happens to a channel: a send whose write succeeds or fails, the arrival of the next message,
-- the loss of the stream at the reader, and a receive with a timeout.
pub data Op : Type 0 where
  send : VideoEvent → Bool → Op
  deliver cut : Op
  receive : ℕ → Op

-- What the callers see.
pub data Seen : Type 0 where
  sent : VideoEvent → GstResult → Seen
  received : GstResult → Option VideoEvent → Seen
  silent : Seen

-- A producer's channel, the messages on the stream, and the consumer's channel.
pub record Link : Type 0 where
  pub sender : EventChannel
  pub wire : List (List ℕ)
  pub receiver : EventChannel

abbrev pub new_link : ℕ → ℕ → ℕ → ℕ → Link
new_link stream peer generation idle = record {
  sender = new_events stream true generation idle;
  wire = [];
  receiver = new_events peer false generation idle;
}

abbrev pub written : List (List ℕ) → Option (List ℕ) → List (List ℕ)
written wire none = wire
written wire (some m) = wire ++ m ∷ []

-- The queue that the channel stands for.
pub record Fifo : Type 0 where
  pub in_flight : List VideoEvent
  pub waiting : List VideoEvent
  pub count : ℕ
  pub closed : Bool
  pub broken : Bool

abbrev pub no_events : Fifo
no_events = record { in_flight = []; waiting = []; count = 0; closed = false; broken = false }

abbrev pub fifo_written : Fifo → VideoEvent → Bool → Fifo × Seen
fifo_written q e true =
    (record q { in_flight = q.in_flight ++ e ∷ []; count = q.count + 1 }, sent e ready)
fifo_written q e false = (record q { count = q.count + 1; closed = true }, sent e cancelled)

unfoldable pub fifo_send : Fifo → VideoEvent → Bool → Fifo × Seen
fifo_send q e done =
    if not (valid_event e)
    then (q, sent e invalid)
    else if q.closed
    then (q, sent e cancelled)
    else if q.count == u64_max
    then (q, sent e invalid)
    else fifo_written q e done

-- A flush, or one event more than 32 that wait, breaks the queue.
unfoldable pub fifo_deliver : Fifo → List VideoEvent → Fifo
fifo_deliver q [] = q
fifo_deliver q (e ∷ es) =
    if q.broken
    then q
    else if e.kind == video_flush || leb 32 (length q.waiting)
    then record q { broken = true }
    else record q { in_flight = es; waiting = q.waiting ++ e ∷ [] }

abbrev pub fifo_take : Fifo → List VideoEvent → Fifo × Seen
fifo_take q [] = (q, received (if q.broken then cancelled else timed_out) none)
fifo_take q (e ∷ es) = (record q { waiting = es }, received ready (some e))

unfoldable pub fifo_step : Fifo → Op → Fifo × Seen
unfolding fifo_send fifo_deliver
fifo_step q (send e done) = fifo_send q e done
fifo_step q deliver = (fifo_deliver q q.in_flight, silent)
fifo_step q cut = (record q { broken = true }, silent)
fifo_step q (receive t) = if ltb 60000 t then (q, received invalid none) else fifo_take q q.waiting

unfoldable pub fifo_run : Fifo → List Op → List Seen
fifo_run q [] = []
fifo_run q (o ∷ os) = (fifo_step q o).1 ∷ fifo_run (fifo_step q o).0 os

-- The event that was taken for sending, or that was received.
abbrev pub sent_of : Seen → List VideoEvent
sent_of (sent e ready) = e ∷ []
sent_of _ = []

abbrev pub received_of : Seen → List VideoEvent
received_of (received ready (some e)) = e ∷ []
received_of _ = []

abbrev pub each : (Seen → List VideoEvent) → List Seen → List VideoEvent
each f [] = []
each f (x ∷ xs) = f x ++ each f xs

abbrev pub sent_link : Link → VideoEvent → EventChannel × GstResult × Option (List ℕ) → Link × Seen
sent_link l e (c, r, m) = (record l { sender = c; wire = written l.wire m }, sent e r)

abbrev pub got_link : Link → EventChannel × GstResult × Option VideoEvent → Link × Seen
got_link l (c, r, e) = (record l { receiver = c }, received r e)

module _ (be : BigEndian) where
  unfoldable pub link_send : Link → VideoEvent → Bool → Link × Seen
  link_send l e done = sent_link l e (send_event be l.sender e done)

  unfoldable pub link_deliver : Link → List (List ℕ) → Link
  link_deliver l [] = l
  link_deliver l (w ∷ ws) = record l { wire = ws; receiver = read_message be l.receiver w }

  unfoldable pub link_step : Link → Op → Link × Seen
  unfolding link_send link_deliver lose_stream
  link_step l (send e done) = link_send l e done
  link_step l deliver = (link_deliver l l.wire, silent)
  link_step l cut = (record l { receiver = lose_stream l.receiver }, silent)
  link_step l (receive t) = got_link l (receive_event l.receiver t)

  unfoldable pub link_run : Link → List Op → List Seen
  link_run l [] = []
  link_run l (o ∷ os) = (link_step l o).1 ∷ link_run (link_step l o).0 os
