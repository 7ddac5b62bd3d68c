-- ===== src/Examples/Channels.antt =====
-- A channel of two slots between a producer and a consumer of src/framelink_linux.cpp.
use framelink.Base.{
  if◌then◌else◌, ◌==◌, ℕ, Bool, All, ◌<◌, ◌≡◌, ◌≢◌, ◌≤◌, ◌+◌, refl, true, false, none, some, List,
  [], ◌∷◌, arith, length,
}
use framelink.Base.Int.{pos}
use framelink.Api.{ok, busy, not_found, max_pool_size}
use framelink.Slots.{Opened, opened, refused}
use framelink.Layout.{valid_geometry}
use framelink.Metadata.{
  FrameMetadata, Announced, no_metadata, frame_message, validate_metadata, decode_frame,
}
use framelink.Metadata.Exchange.{decode_frame-frame_message}
use framelink.Ring.{
  Dmabuf, RingInfo, fourcc_for, ring_message, adopted_ring, ring_info, all_fds, ring_valid,
  import_images, import_planes,
}
use framelink.Ring.Handover.{Fits, adopted_ring-ring_message, adopted_ring-Fits}
use framelink.Ledger.{new}
use framelink.Ledger.Invariant.{Inv}
use framelink.Ledger.Invariant.Runs.{new-Inv}
use framelink.Producer.{
  Producer, Buffer, Round, advance, acquire_buffer, acquire_loop, take_free, first_free, drain,
  begin_submit, end_submit, is_reservation,
}
use framelink.Producer.Ownership.{acquires, begins, act, acquired_state}
use framelink.Producer.Attach.{
  new_producer, with_ring, receive_ring, import_ring, ring_description, new_images,
}
use framelink.References.{is_busy, no_references}
use framelink.Consumer.Calls.{consume, consume-Sound, takes}
use framelink.Consumer.Timeline.{Sound}
use framelink.Consumer.{
  receive_frame, FrameRound, Outside, Incoming, geometry_request, Consumer, in_use, attach,
  new_timeline, handed_over, ring_sent,
}
use framelink.Consumer.Allocation.{
  Input, Calls, Creation, new_consumer, with_pool, create_channel, adopt_images, check_planes,
  check_plane, duplicate_planes, same_layout,
}
use framelink.Consumer.Allocation.Pools.{create_channel-adopted_ring}
use framelink.Ring.{RingDesc}
use framelink.System.{
  System, Reachable, start, then_step, produces, submits, receives, submission, announce,
}
use framelink.System.Invariant.{Agree}
use framelink.System.Safety.{Step-Agree, Reachable-Agree}
use framelink.System.Start.{attach-Agree, HasNone, IsNew}

abbrev still : RingInfo
still = record { width = 64; height = 32; format = 1; generation = 0 }

-- A slot of 64 by 32 pixels of four bytes.
abbrev slot_at : ℕ → Dmabuf
slot_at fd = record {
  planes = record { fd = fd; stride = 256; offset = 0 } ∷ [];
  fourcc = 0x34325241;
  modifier = 0;
}

slot-Fits : (fd : ℕ) → Fits still 0 (slot_at fd)
unfolding fourcc_for
slot-Fits fd = record {
  count = refl;
  rows = (omega arith, tt);
  fourcc = refl;
  same_modifier = refl;
}

abbrev slots : List Dmabuf
slots = slot_at 5 ∷ slot_at 6 ∷ []

still_valid : valid_geometry 64 32 1 ≡ true
unfolding valid_geometry
still_valid = refl

still_known : fourcc_for 1 ≢ 0
unfolding fourcc_for
still_known e = omega (arith, e)

adopted_ring-Fits_example :
    (still ≡ ring_info (ring_message still slots).0)
    × (valid_geometry 64 32 1 ≡ true)
    × (0 < length slots)
    × (length slots ≤ max_pool_size)
    × All (Fits still 0) slots
unfolding ring_message
adopted_ring-Fits_example =
    adopted_ring-Fits (ring_message still slots).0 (ring_message still slots).1 still slots (
      adopted_ring-ring_message still 0 slots still_valid still_known (λ e. omega (arith, e))
        (omega arith) (slot-Fits 5, (slot-Fits 6, tt)))

-- A caller's two buffers: descriptors 7 and 8, of different files, with GBM's view of them.
abbrev buffer : ℕ → Input
buffer fd = record {
  layout = record { fd = some fd; stride = 256; offset = 0 } ∷ [];
  fourcc = 0x34325241;
  modifier = 0;
}

abbrev calls : Calls
calls = record {
  stat = λ fd. some (record { device = 1; inode = fd; size = 8192 });
  duplicate = λ fd. some (fd + 10);
  import = λ d. some (record {
    address = 90;
    width = 64;
    height = 32;
    fourcc = d.fourcc;
    modifier = d.modifier;
    planes = d.layout;
  });
}

abbrev two_buffers : Creation
two_buffers = record {
  width = 64;
  height = 32;
  format = 1;
  pool_size = 2;
  flags = 0;
  external = some (buffer 7 ∷ buffer 8 ∷ []);
}

abbrev pool : Consumer
pool = with_pool (new_consumer 1 0 still true) (90 ∷ 90 ∷ []) (slot_at 17 ∷ slot_at 18 ∷ [])

created : create_channel calls true (λ i usage. none) 1 two_buffers ≡ (ok, some pool)
unfolding create_channel adopt_images check_planes check_plane duplicate_planes same_layout
    fourcc_for valid_geometry
created = refl

create_channel-adopted_ring_example :
    (length pool.images ≡ 2)
    × (adopted_ring (ring_message pool.info pool.dmabufs).0 (ring_message pool.info pool.dmabufs).1
        ≡ some (pool.info, pool.dmabufs))
create_channel-adopted_ring_example =
    create_channel-adopted_ring calls true (λ i usage. none) 1 two_buffers
      (buffer 7 ∷ buffer 8 ∷ []) pool refl (omega arith) created

abbrev asleep : ℕ → Bool
asleep fd = false

pool-Inv : Inv pool.readers
unfolding new_consumer
pool-Inv = new-Inv 1 (omega arith)

-- The producer attaches to the pool: a new generation and a new timeline.
abbrev viewer : Consumer
viewer = record (new_timeline 1 pool) { peer_connected = true; peer_gone = false }

abbrev sent_ring : RingDesc × List ℕ
sent_ring = handed_over viewer

viewer_attached : attach asleep true pool 1 ≡ (viewer, ring_sent sent_ring)
unfolding attach in_use new_consumer new advance
viewer_attached = refl

abbrev writer : Producer
writer = with_ring (λ i. 70 + i) (new_producer 1 1) (viewer.info, viewer.dmabufs)

writer_opened :
    receive_ring (λ i. 70 + i) (new_producer 1 1) (some (ring_description sent_ring.0, sent_ring.1))
    ≡ (ok, some writer)
unfolding receive_ring import_ring adopted_ring ring_valid fourcc_for valid_geometry import_images
    import_planes ring_message all_fds new_consumer
writer_opened = refl

abbrev agreed : System
agreed = record { producer = writer; consumer = viewer; queue = []; told = [] }

attach-Agree_example : HasNone pool viewer × IsNew writer × Agree agreed
attach-Agree_example =
    attach-Agree asleep pool viewer sent_ring (λ i. 70 + i) 1 1 writer pool-Inv viewer_attached
      writer_opened

agreed-Agree : Agree agreed
agreed-Agree =
    (attach-Agree asleep pool viewer sent_ring (λ i. 70 + i) 1 1 writer pool-Inv viewer_attached
      writer_opened).2

-- The producer takes slot 0 and submits it under the value 1.
abbrev first : Buffer
first = record { slot = 0; image = 70 }

abbrev calm : ℕ → Round
calm w = record { received = []; connected = true; ready = asleep }

abbrev taken : System
taken = record agreed { producer = act writer (acquires 2 0 calm) }

abbrev begun : System
begun = record taken { producer = act taken.producer (begins first) }

abbrev announced : System
announced = record begun {
  producer = (end_submit true begun.producer first 1 (pos 5)).0;
  queue =
      announce (end_submit true begun.producer first 1 (pos 5)).1 []
        (submission begun.producer first 1 (pos 5));
}

run : Reachable agreed announced
run =
    then_step agreed begun announced
      (then_step agreed taken begun
        (then_step agreed agreed taken (start agreed)
          (produces agreed (acquires 2 0 calm) (λ w. tt)))
        (produces taken (begins first) tt))
      (submits begun true first 1 (pos 5))

abbrev spare_slot : Buffer
spare_slot = record { slot = 1; image = 71 }

abbrev regranted : Producer
regranted = acquired_state announced.producer (acquire_buffer 2 0 calm announced.producer)

-- The frame arrives, and the consumer's caller takes it.
abbrev delivered : System
delivered = record announced {
  consumer =
      receive_frame 7 viewer
        (frame_message (record { slot = 0; value = 1; pts_ns = pos 5 }) no_metadata) [];
  queue = [];
}

Reachable-Agree_example : Agree announced
Reachable-Agree_example = Reachable-Agree agreed announced run agreed-Agree

sent_first : announced.queue ≡ (record { slot = 0; value = 1; pts_ns = pos 5 }, no_metadata) ∷ []
unfolding end_submit begin_submit act acquire_buffer acquire_loop take_free first_free
    is_reservation drain is_busy no_references new_producer advance new_consumer new_images
sent_first = refl

delivered-Agree : Agree delivered
delivered-Agree =
    Step-Agree announced delivered
      (receives announced (record { slot = 0; value = 1; pts_ns = pos 5 }, no_metadata) [] 7 []
        sent_first)
      Reachable-Agree_example

consume-Sound_example : Sound delivered.consumer (consume delivered.consumer (takes asleep))
consume-Sound_example = consume-Sound delivered.consumer (takes asleep) delivered-Agree.timeline tt

abbrev described : FrameMetadata
described = record no_metadata { version = 1; stream_generation = 1 }

described_valid : validate_metadata described ≡ ok
unfolding validate_metadata
described_valid = refl

abbrev second_frame : Announced
second_frame = record { slot = 1; value = 2; pts_ns = pos 6 }

abbrev quiet_link : ℕ → FrameRound
quiet_link w = record { incoming = []; ready = asleep }

-- A consumer that allocates its own ring, and a request for 32 by 32 pixels.
abbrev own : Consumer
own = record viewer { external_pool = false }

abbrev holding : Consumer
holding = record own { frame_held = true }

abbrev smaller : Incoming
smaller = geometry_request (some (record { width = 32; height = 32; format = 1 }))

abbrev outside : Outside
outside = record {
  ready = asleep;
  sent = true;
  now = 0;
  allocated = λ w h. some (91 ∷ 92 ∷ [], slots);
}

decode_frame-frame_message_example :
    (decode_frame true (frame_message second_frame described) ≡ some (second_frame, described))
    × (decode_frame true (frame_message second_frame no_metadata) ≡ none)
decode_frame-frame_message_example =
    decode_frame-frame_message true second_frame described described_valid

-- Slot 0 is occupied, slot 1 opens.
abbrev doors : ℕ → Opened
doors i = if i == 0 then refused busy else if i == 1 then opened 40 else refused not_found
