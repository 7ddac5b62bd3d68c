-- ===== src/Ring.antt =====
-- The description of a ring of DMA-BUF images, src/framelink_linux.cpp: how the consumer hands its ring
-- over and how the producer adopts it. A file descriptor stands for the open file that it refers to,
-- which passing it over the socket keeps.
pub mod Handover
use framelink.Base.{
  ℕ, zero, suc, ◌+◌, ◌*◌, Bool, true, false, not, ◌&&◌, ◌||◌, Option, none, some, List, [], ◌∷◌,
  ◌++◌, map, ltb, leb, ◌==◌, if◌then◌else◌, length, take, drop, all,
}
use framelink.Api.{max_pool_size}
use framelink.Layout.{format_nv12, valid_geometry}

-- flDmabuf: the fields of its planes, and the fields of the whole image.
pub record Plane : Type 0 where
  pub fd : ℕ
  pub stride : ℕ
  pub offset : ℕ

pub record Dmabuf : Type 0 where
  pub planes : List Plane
  pub fourcc : ℕ
  pub modifier : ℕ

-- The layout of a plane, as RingDescMsg has it.
pub record PlaneLayout : Type 0 where
  pub stride : ℕ
  pub offset : ℕ

-- RingDescMsg, the fields of Linux. `layouts` has planeStride and planeOffset of each slot, as many as its
-- planeCount says.
pub record RingDesc : Type 0 where
  pub width : ℕ
  pub height : ℕ
  pub format : ℕ
  pub generation : ℕ
  pub fourcc : ℕ
  pub modifier : ℕ
  pub layouts : List (List PlaneLayout)

-- The fields of flChannelInfo that describe the ring.
pub record RingInfo : Type 0 where
  pub width : ℕ
  pub height : ℕ
  pub format : ℕ
  pub generation : ℕ

-- fourccFor(): the DRM format of an flFormat, 0 for none.
unfoldable pub fourcc_for : ℕ → ℕ
fourcc_for format =
    if format == 1
    then 0x34325241
    else if format == 2
    then 0x3231564e
    else if format == 4
    then 0x34324241
    else if format == 3
    then 0x30334241
    else 0

-- The number of planes of an image of a format.
abbrev pub planes_of : ℕ → ℕ
planes_of format = if format == format_nv12 then 2 else 1

-- The bytes of a row that importRing() requires.
abbrev pub row_bytes : ℕ → ℕ → ℕ
row_bytes format width = if format == format_nv12 then width else width * 4

abbrev pub layout_of : Plane → PlaneLayout
layout_of p = record { stride = p.stride; offset = p.offset }

abbrev pub fds_of : List Plane → List ℕ
fds_of ps = map (λ p. p.fd) ps

-- The loop of handOverRing() over the slots: their descriptors, slot by slot and plane by plane.
unfoldable pub all_fds : List Dmabuf → List ℕ
all_fds [] = []
all_fds (d ∷ ds) = fds_of d.planes ++ all_fds ds

abbrev pub first_fourcc : List Dmabuf → ℕ
first_fourcc [] = 0
first_fourcc (d ∷ ds) = d.fourcc

abbrev pub first_modifier : List Dmabuf → ℕ
first_modifier [] = 0
first_modifier (d ∷ ds) = d.modifier

-- The message that handOverRing() sends, with the descriptors that go along.
unfoldable pub ring_message : RingInfo → List Dmabuf → RingDesc × List ℕ
unfolding all_fds
ring_message info ds = (
  record {
    width = info.width;
    height = info.height;
    format = info.format;
    generation = info.generation;
    fourcc = first_fourcc ds;
    modifier = first_modifier ds;
    layouts = map (λ d. map layout_of d.planes) ds;
  },
  all_fds ds,
)

-- The loop of importRing() over the planes of a slot; `fds[n++]` takes the descriptors in order.
unfoldable pub import_planes : List PlaneLayout → List ℕ → List Plane
import_planes [] fds = []
import_planes (l ∷ ls) [] = []
import_planes (l ∷ ls) (fd ∷ fds) =
    record { fd = fd; stride = l.stride; offset = l.offset } ∷ import_planes ls fds

-- The loop of importRing() over the slots.
unfoldable pub import_images : ℕ → ℕ → List (List PlaneLayout) → List ℕ → List Dmabuf
unfolding import_planes
import_images fourcc modifier [] fds = []
import_images fourcc modifier (ls ∷ rest) fds =
    record { planes = import_planes ls fds; fourcc = fourcc; modifier = modifier }
    ∷ import_images fourcc modifier rest (drop (length ls) fds)

-- The checks of importRing() of one slot.
abbrev pub slot_fits : RingDesc → List PlaneLayout → Bool
slot_fits rd ls =
    length ls == planes_of rd.format && all (λ l. leb (row_bytes rd.format rd.width) l.stride) ls

-- The checks of importRing() of the message.
unfoldable pub ring_valid : RingDesc → List ℕ → Bool
ring_valid rd fds =
    not (length rd.layouts == 0)
    && leb (length rd.layouts) max_pool_size
    && valid_geometry rd.width rd.height rd.format
    && rd.fourcc == fourcc_for rd.format
    && not (rd.fourcc == 0)
    && all (slot_fits rd) rd.layouts
    && length fds == length rd.layouts * planes_of rd.format

abbrev pub ring_info : RingDesc → RingInfo
ring_info rd = record {
  width = rd.width;
  height = rd.height;
  format = rd.format;
  generation = rd.generation;
}

-- What importRing() adopts: none where it refuses the description.
unfoldable pub adopted_ring : RingDesc → List ℕ → Option (RingInfo × List Dmabuf)
adopted_ring rd fds =
    if ring_valid rd fds
    then some (ring_info rd, import_images rd.fourcc rd.modifier rd.layouts fds)
    else none
