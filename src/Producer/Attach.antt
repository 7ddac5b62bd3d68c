-- ===== src/Producer/Attach.antt =====
-- How a producer of src/framelink_linux.cpp gets its ring: flOpenProducer, importRing and
-- flRequestGeometry. What the socket delivers is an argument.
use framelink.Base.{
  ℕ, suc, Bool, true, false, not, Option, none, some, List, [], ◌∷◌, ◌==◌, if◌then◌else◌, length,
  replicate, any,
}
use framelink.Api.{
  FlResult, ok, disconnected, version_mismatch, format_unsupported, not_found, invalid, internal,
  busy, u64_max,
}
use framelink.Layout.{valid_geometry}
use framelink.Metadata.{no_metadata, local_features, compatible_features}
use framelink.Ring.{RingDesc, RingInfo, Dmabuf, adopted_ring, fourcc_for}
use framelink.References.{no_references, is_empty}
use framelink.Producer.{Producer, Message, apply_release, no_slot}

-- FL_VERSION
abbrev pub fl_version : ℕ
fl_version = 6

-- What the consumer sends to a producer that attaches. `other_opening` is another type, or a payload that
-- has not the size of its struct.
pub data Opening : Type 0 where
  busy_message other_opening : Opening
  hello_message : ℕ → ℕ → Opening
  ring_description : RingDesc → Opening

-- fl::Message: a message with the descriptors that came along.
abbrev pub Received : Type 0
Received = Opening × List ℕ

-- The images that importRing() allocates, from slot i on.
unfoldable pub new_images : (ℕ → ℕ) → ℕ → List Dmabuf → List ℕ
new_images fresh i [] = []
new_images fresh i (d ∷ ds) = fresh i ∷ new_images fresh (suc i) ds

-- The end of importRing(), with the ring that was adopted.
abbrev pub with_ring : (ℕ → ℕ) → Producer → RingInfo × List Dmabuf → Producer
with_ring fresh p (info, ds) = record p {
  info = info;
  images = new_images fresh 0 ds;
  dmabufs = ds;
  submit_values = replicate (length ds) 0;
  consumed = 0;
  ready_value = 0;
}

-- importRing() behind its checks.
abbrev pub adopt_into : (ℕ → ℕ) → Producer → Option (RingInfo × List Dmabuf) → Producer × FlResult
adopt_into fresh p none = (p, disconnected)
adopt_into fresh p (some ring) = (with_ring fresh p ring, ok)

-- importRing()
unfoldable pub import_ring : (ℕ → ℕ) → Producer → RingDesc → List ℕ → Producer × FlResult
import_ring fresh p rd fds = adopt_into fresh p (adopted_ring rd fds)

-- The channel as flOpenProducer constructs it, with the peer's feature word; `next` is the reference counter of
-- the process.
unfoldable pub new_producer : ℕ → ℕ → Producer
new_producer next features = record {
  info = record { width = 0; height = 0; format = 0; generation = 0 };
  images = [];
  dmabufs = [];
  submit_values = [];
  consumed = 0;
  ready_value = 0;
  submitting_slot = no_slot;
  submitting_value = 0;
  releases = [];
  references = no_references next;
  slot_metadata = replicate 16 no_metadata;
  peer_features = features;
  connected = true;
}

-- The result of flOpenProducer, which gives no channel but with FL_OK.
abbrev pub opened_with : Producer × FlResult → FlResult × Option Producer
opened_with (p, ok) = (ok, some p)
opened_with (p, r) = (r, none)

-- The second message that flOpenProducer receives, the ring.
unfoldable pub receive_ring : (ℕ → ℕ) → Producer → Option Received → FlResult × Option Producer
unfolding import_ring
receive_ring fresh p none = (disconnected, none)
receive_ring fresh p (some (busy_message, fds)) = (busy, none)
receive_ring fresh p (some (ring_description rd, fds)) = opened_with (import_ring fresh p rd fds)
receive_ring fresh p (some (_, fds)) = (disconnected, none)

-- flOpenProducer behind the connection, by the first message; `sent` is whether the answer is sent.
unfoldable pub receive_hello :
    (ℕ → ℕ) → ℕ → Bool → Option Received → Option Received → FlResult × Option Producer
unfolding new_producer receive_ring
receive_hello fresh next sent none ring = (disconnected, none)
receive_hello fresh next sent (some (m, fd ∷ fds)) ring = (invalid, none)
receive_hello fresh next sent (some (busy_message, [])) ring = (busy, none)
receive_hello fresh next sent (some (hello_message version features, [])) ring =
    if not (version == fl_version)
    then (version_mismatch, none)
    else if not (compatible_features (local_features 0) features)
    then (version_mismatch, none)
    else if not sent
    then (internal, none)
    else receive_ring fresh (new_producer next features) ring
receive_hello fresh next sent (some (_, [])) ring = (disconnected, none)

-- flOpenProducer
unfoldable pub open_producer :
    (ℕ → ℕ) → ℕ → Bool → Bool → Option Received → Option Received → FlResult × Option Producer
unfolding receive_hello
open_producer fresh next reached sent hello ring =
    if not reached then (not_found, none) else receive_hello fresh next sent hello ring

-- What answers a request for a geometry: releases that were on their way, and the ring.
pub data Answer : Type 0 where
  released : (ℕ → Bool) → Message → Answer
  ring_answer : RingDesc → List ℕ → Answer
  other_answer : Answer

-- flRequestGeometry with the ring that answers it.
unfoldable pub take_ring : (ℕ → ℕ) → Producer → RingDesc → List ℕ → Producer × FlResult
unfolding import_ring
take_ring fresh p rd fds =
    if rd.generation == p.info.generation
    then (p, ok)
    else import_ring fresh (record p { releases = []; ready_value = 0 }) rd fds

-- The loop of flRequestGeometry over what it receives; the end of the list is a lost connection.
unfoldable pub await_ring : (ℕ → ℕ) → Producer → List Answer → Producer × FlResult
unfolding take_ring apply_release
await_ring fresh p [] = (record p { connected = false }, disconnected)
await_ring fresh p (released ready m ∷ rest) = await_ring fresh (apply_release ready p m) rest
await_ring fresh p (ring_answer rd fds ∷ rest) = take_ring fresh p rd fds
await_ring fresh p (other_answer ∷ rest) = (p, disconnected)

abbrev pub any_reserved : Producer → Bool
any_reserved p = any (λ v. v == u64_max) p.submit_values

-- flRequestGeometry
unfoldable pub request_geometry :
    (ℕ → ℕ) → Bool → Producer → ℕ → ℕ → ℕ → List Answer → Producer × FlResult
unfolding await_ring
request_geometry fresh sent p w h format answers =
    if not (valid_geometry w h format)
    then (p, invalid)
    else if fourcc_for format == 0
    then (p, format_unsupported)
    else if not p.connected
    then (p, disconnected)
    else if not (is_empty p.references)
    then (p, busy)
    else if any_reserved p
    then (p, busy)
    else if not sent
    then (record p { connected = false }, disconnected)
    else await_ring fresh p answers
