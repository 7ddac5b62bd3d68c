-- ===== src/Consumer.antt =====
-- The consumer's half of a channel, src/framelink_linux.cpp: it owns the ring, accepts one producer at a
-- time, and lets its caller hold the latest frame. The socket, the fences and the allocator are not
-- under src/: what they deliver is an argument of each operation.
pub mod Leases
pub mod Timeline
pub mod Collection
pub mod Calls
pub mod Frames
pub mod Allocation
use framelink.Base.{
  ℕ, zero, suc, ◌+◌, ◌-◌, ◌%◌, Bool, true, false, not, ◌&&◌, ◌||◌, Option, none, some, List, [],
  ◌∷◌, ltb, leb, ◌==◌, if◌then◌else◌, length, get_or,
}
use framelink.Base.Int.{ℤ}
use framelink.Api.{FlResult, ok, timeout, disconnected, invalid, busy, internal, Frame}
use framelink.Layout.{valid_geometry}
use framelink.Ledger.{Ledger, empty, reset_epoch}
use framelink.Metadata.{
  FrameMetadata, Announced, FrameMessage, has_flag, require_metadata, local_features,
  compatible_features, decode_frame,
}
use framelink.Ring.{RingInfo, RingDesc, Dmabuf, ring_message}
use framelink.Producer.{Release, fence_ready, advance, push_back}
use framelink.Producer.Attach.{Opening, hello_message, Received, fl_version}

-- struct LeaseCompletion: free when its token is 0.
pub record Completion : Type 0 where
  pub token : ℕ
  pub fd : Option ℕ

-- The consumer's fields of flChannel, with those of its flChannelInfo and SyncFds.
pub record Consumer : Type 0 where
  pub flags : ℕ
  pub info : RingInfo
  pub images : List ℕ
  pub dmabufs : List Dmabuf
  pub external_pool : Bool
  pub readers : Ledger
  pub completions : List Completion
  pub pending_fd : Option ℕ
  pub held_fd : Option ℕ
  pub releases : List Release
  pub retired : ℕ
  pub has_pending : Bool
  pub pending_slot : ℕ
  pub pending_ready : ℕ
  pub pending_pts : ℤ
  pub pending_metadata : FrameMetadata
  pub pending_arrival : ℕ
  pub frame_held : Bool
  pub held_slot : ℕ
  pub held_ready : ℕ
  pub held_metadata : FrameMetadata
  pub held_arrival : ℕ
  pub sequence : ℕ
  pub peer_features : ℕ
  pub peer_connected : Bool
  pub peer_gone : Bool

-- FL_GPU_SYNC, FL_DEFER_RELEASE, FL_TRACK_ARRIVAL
abbrev pub gpu_sync : ℕ
gpu_sync = 2

abbrev pub defer_release : ℕ
defer_release = 4

abbrev pub track_arrival : ℕ
track_arrival = 16

-- sync.advance(retiredValue)
abbrev pub with_retired : (ℕ → Bool) → Consumer → Consumer
with_retired ready c =
    let (retired, waiting) = advance ready c.retired c.releases in
    record c { retired = retired; releases = waiting }

-- SyncFds::clear()
abbrev pub clear_sync : Consumer → Consumer
clear_sync c = record c { pending_fd = none; held_fd = none; releases = [] }

-- Whether frames of the ring are leased, held, or not yet read to the end.
unfoldable pub in_use : Consumer → Bool
in_use c = not (empty c.readers) || c.frame_held || ltb c.retired c.held_ready

-- The end of a connection in acceptLoop(), and of one whose link is down.
abbrev pub lose_peer : Consumer → Consumer
lose_peer c = record c { peer_gone = true }

abbrev pub lose_link : Consumer → Consumer
lose_link c = record c { peer_gone = true; peer_connected = false }

-- handOverRing(): the ring's description with its descriptors.
abbrev pub handed_over : Consumer → RingDesc × List ℕ
handed_over c = ring_message c.info c.dmabufs

-- What acceptLoop() answers to a producer that attaches.
pub data Welcome : Type 0 where
  no_answer busy_answer : Welcome
  ring_sent : RingDesc × List ℕ → Welcome

abbrev pub new_timeline : ℕ → Consumer → Consumer
new_timeline features c = record (clear_sync c) {
  has_pending = false;
  readers = reset_epoch c.readers;
  held_ready = 0;
  retired = 0;
  peer_features = features;
  info = record c.info { generation = (c.info.generation + 1) % 18446744073709551616 };
}

-- A producer that passed the checks of acceptLoop(); `sent` is whether the link takes the ring.
unfoldable pub attach : (ℕ → Bool) → Bool → Consumer → ℕ → Consumer × Welcome
attach ready sent c features =
    let c' = with_retired ready c in
    if in_use c' || not (fence_ready ready c'.pending_fd)
    then (c', busy_answer)
    else let n = new_timeline features c' in
      if sent
      then (record n { peer_connected = true; peer_gone = false }, ring_sent (handed_over n))
      else (n, no_answer)

-- The check of a producer's HelloMsg in acceptLoop(): its feature word, none where it is refused.
unfoldable pub admitted : ℕ → Option Received → Option ℕ
admitted flags (some (hello_message version features, [])) =
    if version == fl_version && compatible_features (local_features flags) features
    then some features
    else none
admitted flags _ = none

-- acceptLoop() from the accepted link to the attached peer.
unfoldable pub welcome : (ℕ → Bool) → Bool → Bool → Consumer → Option Received → Consumer × Welcome
unfolding attach
welcome ready greeted sent c hello = elim (admitted c.flags hello) [
  | none ↦ (c, no_answer)
  | some features ↦ if greeted then attach ready sent c features else (c, no_answer)
]

-- GeometryMsg
pub record Geometry : Type 0 where
  pub width : ℕ
  pub height : ℕ
  pub format : ℕ

-- What the peer sends. `none` is a payload that is shorter than its struct.
pub data Incoming : Type 0 where
  lost bye other_incoming : Incoming
  geometry_request : Option Geometry → Incoming
  frame : FrameMessage → List ℕ → Incoming

-- What the outside does while a message is handled: what poll() says of fences, whether the link takes
-- the answer, the clock, and the images that reallocRing() allocates, none where it fails.
pub record Outside : Type 0 where
  pub ready : ℕ → Bool
  pub sent : Bool
  pub now : ℕ
  pub allocated : ℕ → ℕ → Option (List ℕ × List Dmabuf)

-- reallocRing() with the images that it allocated.
abbrev pub with_images : Consumer → ℕ → ℕ → List ℕ × List Dmabuf → Consumer
with_images c w h (images, dmabufs) = record (clear_sync c) {
  images = images;
  dmabufs = dmabufs;
  info = record c.info {
    width = w;
    height = h;
    generation = (c.info.generation + 1) % 18446744073709551616;
  };
  readers = reset_epoch c.readers;
  held_ready = 0;
  retired = 0;
}

-- Whether acceptLoop() considers a request for another geometry.
abbrev pub may_change : Consumer → Geometry → Bool
may_change c g =
    not c.external_pool
    && g.format == c.info.format
    && valid_geometry g.width g.height c.info.format
    && (not (g.width == c.info.width) || not (g.height == c.info.height))

-- The branch of acceptLoop() that reallocates the ring, up to handing it over.
unfoldable pub resized : Outside → Consumer → Geometry → Consumer
resized o c g =
    let c' = with_retired o.ready c in
    let idle = record c' { has_pending = false; pending_fd = none } in
    if not (may_change c g)
    then c
    else if in_use c'
    then c'
    else elim (o.allocated g.width g.height) [
      | none ↦ idle
      | some images ↦ with_images idle g.width g.height images
    ]

-- handOverRing() to the peer, behind a request.
abbrev pub answer_ring : Bool → Consumer → Consumer × Option (RingDesc × List ℕ)
answer_ring true c = (c, some (handed_over c))
answer_ring false c = (lose_link c, none)

abbrev pub first_fd : List ℕ → Option ℕ
first_fd [] = none
first_fd (fd ∷ fds) = some fd

-- The end of acceptLoop()'s round: the latest frame replaces the one that is pending.
abbrev pub with_pending : ℕ → Consumer → Announced × FrameMetadata → List ℕ → Consumer
with_pending now c (a, metadata) fds = record c {
  pending_fd = first_fd fds;
  has_pending = true;
  pending_slot = a.slot;
  pending_ready = a.value;
  pending_pts = a.pts_ns;
  pending_metadata = metadata;
  pending_arrival = (if has_flag c.flags track_arrival then now else c.pending_arrival);
  sequence = (c.sequence + 1) % 18446744073709551616;
}

-- The frame branch of acceptLoop(): a message that is refused ends the connection.
unfoldable pub receive_frame : ℕ → Consumer → FrameMessage → List ℕ → Consumer
receive_frame now c m fds = elim (decode_frame (has_flag c.flags require_metadata) m) [
  | none ↦ lose_peer c
  | some x ↦ if ltb x.0.slot (length c.images) then with_pending now c x fds else lose_peer c
]

-- One round of acceptLoop() with an attached peer: the new state and the ring that is sent.
unfoldable pub receive : Outside → Consumer → Incoming → Consumer × Option (RingDesc × List ℕ)
unfolding resized receive_frame
receive o c lost = (lose_link c, none)
receive o c bye = (lose_peer c, none)
receive o c other_incoming = (c, none)
receive o c (geometry_request none) = answer_ring o.sent c
receive o c (geometry_request (some g)) = answer_ring o.sent (resized o c g)
receive o c (frame m fds) = (receive_frame o.now c m fds, none)

-- The rounds of acceptLoop() while the peer is attached.
unfoldable pub receive_all : Consumer → List (Outside × Incoming) → Consumer
unfolding receive
receive_all c [] = c
receive_all c ((o, m) ∷ ms) = if c.peer_gone then c else receive_all (receive o c m).0 ms

abbrev pub frame_of : Consumer → Frame
frame_of c = record {
  slot = c.pending_slot;
  image = get_or c.images c.pending_slot 0;
  pts_ns = c.pending_pts;
  sequence = c.sequence;
  ready_value = c.pending_ready;
}

-- The pending frame becomes the held one.
abbrev pub with_held : Consumer → Consumer
with_held c = record c {
  held_fd = c.pending_fd;
  pending_fd = none;
  frame_held = true;
  held_arrival = c.pending_arrival;
  held_ready = c.pending_ready;
  held_slot = c.pending_slot;
  held_metadata = c.pending_metadata;
  has_pending = false;
}

-- The locked section of flAcquireFrame: none where no frame can be taken.
unfoldable pub take_frame : (ℕ → Bool) → Consumer → Option (Consumer × Frame)
take_frame ready c =
    if c.has_pending
      && not c.frame_held
      && (has_flag c.flags gpu_sync || fence_ready ready c.pending_fd)
    then some (with_held c, frame_of c)
    else none

-- One round of the wait in flAcquireFrame: what acceptLoop() received before, and what poll() says.
pub record FrameRound : Type 0 where
  pub incoming : List (Outside × Incoming)
  pub ready : ℕ → Bool

-- The loop of flAcquireFrame, on fuel: none where the fuel runs out.
unfoldable pub frame_loop :
    ℕ → ℕ → ℕ → (ℕ → FrameRound) → Consumer → Option (Consumer × FlResult × Option Frame)
frame_loop zero waited limit rounds c = none
frame_loop (suc n) waited limit rounds c =
    let c' = receive_all c (rounds waited).incoming in
    let rest = frame_loop n ((waited + 2) % 4294967296) limit rounds c' in
    elim (take_frame (rounds waited).ready c') [
      | some (d, f) ↦ some (d, ok, some f)
      | none ↦
          if c'.peer_gone
          then some (c', disconnected, none)
          else if leb limit waited
          then some (c', timeout, none)
          else rest
    ]

-- flAcquireFrame of a consumer's channel.
unfoldable pub acquire_frame :
    ℕ → ℕ → (ℕ → FrameRound) → Consumer → Option (Consumer × FlResult × Option Frame)
unfolding frame_loop
acquire_frame fuel limit rounds c = frame_loop fuel 0 limit rounds c

-- Whether the frame is the one that is held.
unfoldable pub is_held : Consumer → Frame → Bool
is_held c f = c.frame_held && f.ready_value == c.held_ready && f.slot == c.held_slot

abbrev pub no_longer_held : Consumer → Consumer
no_longer_held c = record c { frame_held = false; held_fd = none }

-- The push to the releases, and the advance behind it.
abbrev pub with_release : (ℕ → Bool) → Consumer → Release → Consumer
with_release ready c r = with_retired ready (record c { releases = push_back c.releases r })

-- What a failed send leaves of the peer.
abbrev pub after_send : Bool → Consumer → Consumer
after_send sent c = record c { peer_connected = sent && c.peer_connected }

-- What a release needs of the outside: fences, whether dup() gives a descriptor, and whether the link takes
-- the message.
pub record Releasing : Type 0 where
  pub ready : ℕ → Bool
  pub duplicated : Bool
  pub sent : Bool

abbrev pub is_fd : Option ℕ → Bool
is_fd none = false
is_fd (some fd) = true

-- The end of a release, by whether the peer is up and takes it: with the FrameReleased message.
abbrev pub tell_peer : Bool → Consumer → Release → Consumer × FlResult × Option Release
tell_peer sent c r = (
  after_send sent c,
  (if sent && c.peer_connected then ok else disconnected),
  (if sent && c.peer_connected then some r else none),
)

-- flReleaseSyncFd
unfoldable pub release_sync_fd :
    Releasing → Consumer → Frame → Option ℕ → Consumer × FlResult × Option Release
release_sync_fd o c f fd =
    let r : Release = record { value = f.ready_value; fd = fd } in
    let c' = no_longer_held (with_release o.ready c r) in
    if leb (length c.images) f.slot
    then (c, invalid, none)
    else if not (empty c.readers)
    then (c, busy, none)
    else if not (is_held c f)
    then (c, invalid, none)
    else if is_fd fd && not o.duplicated
    then (c, internal, none)
    else if not c.peer_connected
    then (c', ok, none)
    else tell_peer o.sent c' r

-- Whether the caller retires frames itself.
abbrev pub defers : Consumer → Bool
defers c = has_flag c.flags gpu_sync || has_flag c.flags defer_release

-- flRelease
unfoldable pub release : Releasing → Consumer → Frame → Consumer × FlResult × Option Release
unfolding release_sync_fd
release o c f =
    if not (defers c)
    then release_sync_fd o c f none
    else if not (empty c.readers)
    then (c, busy, none)
    else if not (is_held c f)
    then (c, invalid, none)
    else (no_longer_held c, ok, none)

-- flSignalConsumedSyncFd
unfoldable pub signal_consumed :
    Releasing → Consumer → ℕ → Option ℕ → Consumer × FlResult × Option Release
signal_consumed o c value fd =
    let r : Release = record { value = value; fd = fd } in
    if not (defers c)
    then (c, invalid, none)
    else if not (empty c.readers)
    then (c, busy, none)
    else if ltb c.held_ready value
    then (c, invalid, none)
    else if is_fd fd && not o.duplicated
    then (c, internal, none)
    else tell_peer o.sent (with_release o.ready c r) r

-- flFrameReadySyncFd
unfoldable pub frame_ready_fd : Consumer → Frame → FlResult × Option ℕ
frame_ready_fd c f = if is_held c f then (ok, c.held_fd) else (invalid, none)
