-- ===== src/Gst/Events.antt =====
-- The event channel of a session, src/gst/fl_gst_event_channel.hpp: ordered video events over one
-- authenticated stream. A message that arrives whole is one step of the reader's loop, and the wait
-- of receive() is over where it is called. GStreamer's big-endian reads and writes are parameters.
pub mod Fifo
pub mod Delivery
pub mod Arrival
pub mod Simulation
pub mod Order
use framelink.Base.{
  ℕ, zero, suc, ◌+◌, ◌-◌, ◌*◌, ◌/◌, ◌^◌, ◌<◌, ◌≡◌, Bool, true, false, not, ◌&&◌, ◌||◌, Option, none,
  some, List, [], ◌∷◌, ◌++◌, ltb, leb, ◌==◌, truthy, if◌then◌else◌, length, take, drop, replicate,
}
use framelink.Base.Bytes.{AreBytes}
use framelink.Api.{u64_max}
use framelink.Session.{same_id}
use framelink.Session.Clock.{i64_max}

-- FlGstSessionResult
pub data GstResult : Type 0 where
  ready timed_out cancelled invalid stale : GstResult

-- FlGstVideoEvent
pub record VideoEvent : Type 0 where
  pub kind : ℕ
  pub after_frames : ℕ
  pub pts_ns : ℕ
  pub duration_ns : ℕ

-- FL_GST_VIDEO_GAP, FL_GST_VIDEO_FLUSH, FL_GST_VIDEO_END
abbrev pub video_gap : ℕ
video_gap = 1

abbrev pub video_flush : ℕ
video_flush = 3

abbrev pub video_end : ℕ
video_end = 4

-- The macros GST_WRITE_UINT32_BE, GST_WRITE_UINT64_BE and their reads, by the number of bytes.
pub record BigEndian : Type 0 where
  pub write : ℕ → ℕ → List ℕ
  pub read : ℕ → List ℕ → ℕ
  pub length-write : (n v : ℕ) → length (write n v) ≡ n
  pub read-write : (n v : ℕ) (rest : List ℕ) → v < 2 ^ (8 * n) → read n (write n v ++ rest) ≡ v
  pub read_zeros : (n : ℕ) (rest : List ℕ) → read n (replicate n 0 ++ rest) ≡ 0

-- The fields of FlGstEventChannel, with the reader's `serial`.
pub record EventChannel : Type 0 where
  pub stream : ℕ
  pub producer : Bool
  pub generation : ℕ
  pub socket_timeout : ℕ
  pub is_cancelled : Bool
  pub failed : Bool
  pub sent : ℕ
  pub serial : ℕ
  pub queue : List VideoEvent

-- The constructor.
abbrev pub new_events : ℕ → Bool → ℕ → ℕ → EventChannel
new_events stream producer generation idle = record {
  stream = stream;
  producer = producer;
  generation = generation;
  socket_timeout = (idle + 999) / 1000;
  is_cancelled = false;
  failed = false;
  sent = 0;
  serial = 0;
  queue = [];
}

abbrev pub cancel_events : EventChannel → EventChannel
cancel_events c = record c { is_cancelled = true }

-- fail()
abbrev pub fail : EventChannel → EventChannel
fail c = record c { failed = true; is_cancelled = true }

-- The end of readLoop() on a stream that is lost.
unfoldable pub lose_stream : EventChannel → EventChannel
lose_stream c = if c.is_cancelled then c else fail c

unfoldable pub valid_event : VideoEvent → Bool
valid_event e =
    leb video_gap e.kind
    && leb e.kind video_end
    && leb e.pts_ns i64_max
    && leb e.duration_ns (i64_max - e.pts_ns)
    && (if e.kind == video_gap then ltb 0 e.duration_ns else e.duration_ns == 0)

-- "FLEVT001"
abbrev pub event_magic : List ℕ
event_magic = 70 ∷ 76 ∷ 69 ∷ 86 ∷ 84 ∷ 48 ∷ 48 ∷ 49 ∷ []

-- push_back(), unless the queue is full.
unfoldable pub push_event : EventChannel → VideoEvent → EventChannel
push_event c e =
    if leb 32 (length c.queue)
    then fail c
    else record c { serial = c.serial + 1; queue = c.queue ++ e ∷ [] }

-- What readLoop() makes of an event, by whether the rest of its message is bad.
unfoldable pub accept_event : EventChannel → Bool → VideoEvent → EventChannel
unfolding push_event valid_event
accept_event c bad e =
    if c.is_cancelled
    then c
    else if bad || not (valid_event e)
    then fail c
    else if e.kind == video_flush
    then fail c
    else push_event c e

-- peekEnd(), over the queue.
unfoldable pub first_end : List VideoEvent → Option VideoEvent
first_end [] = none
first_end (e ∷ es) = if e.kind == video_end then some e else first_end es

unfoldable pub peek_end : EventChannel → Option VideoEvent
unfolding first_end
peek_end c = if c.producer then none else first_end c.queue

abbrev pub take_event :
    EventChannel → List VideoEvent → EventChannel × GstResult × Option VideoEvent
take_event c [] = (c, if c.failed || c.is_cancelled then cancelled else timed_out, none)
take_event c (e ∷ es) = (record c { queue = es }, ready, some e)

-- receive(), at the end of its wait.
unfoldable pub receive_event : EventChannel → ℕ → EventChannel × GstResult × Option VideoEvent
receive_event c timeout =
    if c.producer || ltb 60000 timeout then (c, invalid, none) else take_event c c.queue

module _ (be : BigEndian) where
  open be use {write, read}

  -- The 64 bytes that send() writes.
  unfoldable pub event_message : ℕ → VideoEvent → ℕ → List ℕ
  event_message generation e serial =
      event_magic
      ++ (write 8 generation
          ++ (write 4 e.kind
              ++ (replicate 4 0
                  ++ (write 8 e.after_frames
                      ++ (write 8 e.pts_ns
                          ++ (write 8 e.duration_ns ++ (write 8 serial ++ replicate 8 0)))))))

  -- The event of a message in readLoop().
  unfoldable pub read_event : List ℕ → VideoEvent
  read_event wire = record {
    kind = read 4 (drop 16 wire);
    after_frames = read 8 (drop 24 wire);
    pts_ns = read 8 (drop 32 wire);
    duration_ns = read 8 (drop 40 wire);
  }

  -- The tests of readLoop() on a message, but for its event.
  unfoldable pub bad_message : EventChannel → List ℕ → Bool
  bad_message c wire =
      not (same_id (take 8 wire) event_magic)
      || not (read 8 (drop 8 wire) == c.generation)
      || truthy (read 4 (drop 20 wire))
      || truthy (read 8 (drop 56 wire))
      || c.serial == u64_max
      || not (read 8 (drop 48 wire) == c.serial + 1)

  -- A message in readLoop().
  unfoldable pub read_message : EventChannel → List ℕ → EventChannel
  read_message c wire = accept_event c (bad_message c wire) (read_event wire)

  -- The end of send(): whether the stream took the message.
  abbrev pub after_write :
      EventChannel → VideoEvent → Bool → EventChannel × GstResult × Option (List ℕ)
  after_write c e true = (c, ready, some (event_message c.generation e c.sent))
  after_write c e false = (fail c, cancelled, none)

  -- send(), with the message that went out.
  unfoldable pub send_event :
      EventChannel → VideoEvent → Bool → EventChannel × GstResult × Option (List ℕ)
  send_event c e written =
      if not c.producer || not (valid_event e)
      then (c, invalid, none)
      else if c.failed || c.is_cancelled
      then (c, cancelled, none)
      else if c.sent == u64_max
      then (c, invalid, none)
      else after_write (record c { sent = c.sent + 1 }) e written
