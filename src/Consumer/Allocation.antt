-- ===== src/Consumer/Allocation.antt =====
-- The images of a consumer's ring, src/framelink_linux.cpp: reallocRing, adoptRing and createChannel. GBM, fstat
-- and fcntl are not under src/: they are parameters.
pub mod Pools
use framelink.Base.{
  ℕ, zero, suc, ◌+◌, ◌-◌, ◌*◌, ◌/◌, Bool, true, false, not, ◌&&◌, ◌||◌, Option, none, some, List,
  [], ◌∷◌, ◌++◌, map, ltb, leb, ◌==◌, if◌then◌else◌, length, replicate, any, take,
}
use framelink.Base.Int.{pos, negsuc}
use framelink.Api.{FlResult, ok, oom, format_unsupported, invalid, internal, max_pool_size}
use framelink.Layout.{format_nv12, valid_geometry}
use framelink.Ledger.{new}
use framelink.Metadata.{has_flag, no_metadata}
use framelink.Ring.{Plane, Dmabuf, RingInfo, fourcc_for, planes_of, row_bytes}
use framelink.Consumer.{Consumer}
use framelink.Consumer.Leases.{no_completion}

-- FL_MAP_CPU, FL_GPU_RENDER
abbrev pub map_cpu : ℕ
map_cpu = 1

abbrev pub gpu_render : ℕ
gpu_render = 8

-- DRM_FORMAT_MOD_LINEAR
abbrev pub linear : ℕ
linear = 0

-- A buffer object of GBM: the address of its flImage, what GBM says of its geometry and layout, and its planes. A plane's `fd` is none where
-- GBM gives no descriptor.
pub record BoPlane : Type 0 where
  pub fd : Option ℕ
  pub stride : ℕ
  pub offset : ℕ

pub record Bo : Type 0 where
  pub address : ℕ
  pub width : ℕ
  pub height : ℕ
  pub fourcc : ℕ
  pub modifier : ℕ
  pub planes : List BoPlane

-- The usage that gbm_bo_create() is asked for: GBM_BO_USE_RENDERING, GBM_BO_USE_LINEAR, or both.
pub data Usage : Type 0 where
  use_rendering use_linear use_both : Usage

abbrev pub preferred_usage : ℕ → Usage
preferred_usage flags = if has_flag flags map_cpu then use_both else use_rendering

abbrev pub fallback_usage : ℕ → Usage
fallback_usage flags = if has_flag flags map_cpu then use_linear else use_rendering

-- The planes of a new image, none where one has no descriptor.
unfoldable pub bo_planes : List BoPlane → Option (List Plane)
bo_planes [] = some []
bo_planes (p ∷ ps) = elim p.fd [
  | none ↦ none
  | some fd ↦ elim (bo_planes ps) [
    | none ↦ none
    | some qs ↦ some (record { fd = fd; stride = p.stride; offset = p.offset } ∷ qs)
  ]
]

-- The creation of slot i in reallocRing(), with the fallback to another usage: the two differ under
-- FL_MAP_CPU only.
abbrev pub create_bo : (ℕ → Usage → Option Bo) → ℕ → ℕ → Option Bo
create_bo gbm flags i = elim (gbm i (preferred_usage flags)) [
  | some bo ↦ some bo
  | none ↦ if has_flag flags map_cpu then gbm i (fallback_usage flags) else none
]

-- The checks of reallocRing() of a new buffer object.
abbrev pub bo_fits : ℕ → ℕ → Bo → Bool
bo_fits flags format bo =
    length bo.planes == planes_of format && (not (has_flag flags map_cpu) || bo.modifier == linear)

-- A slot of reallocRing(): its address and what it describes, none where it fails.
unfoldable pub allocate_one : (ℕ → Usage → Option Bo) → ℕ → ℕ → ℕ → Option (ℕ × Dmabuf)
unfolding bo_planes
allocate_one gbm flags format i = elim (create_bo gbm flags i) [
  | none ↦ none
  | some bo ↦ if not (bo_fits flags format bo) then none else elim (bo_planes bo.planes) [
    | none ↦ none
    | some ps ↦
        some (bo.address, record { planes = ps; fourcc = bo.fourcc; modifier = bo.modifier })
  ]
]

-- The loop of reallocRing() from slot i on, n slots; all of them or none.
unfoldable pub allocate_all :
    (ℕ → Usage → Option Bo) → ℕ → ℕ → ℕ → ℕ → Option (List ℕ × List Dmabuf)
unfolding allocate_one
allocate_all gbm flags format i zero = some ([], [])
allocate_all gbm flags format i (suc n) = elim (allocate_one gbm flags format i) [
  | none ↦ none
  | some (a, d) ↦ elim (allocate_all gbm flags format (suc i) n) [
    | none ↦ none
    | some (rest, ds) ↦ some (a ∷ rest, d ∷ ds)
  ]
]

-- What fstat() says of a descriptor: the device and the inode of its file, and its size, 0 where it has none.
pub record Stat : Type 0 where
  pub device : ℕ
  pub inode : ℕ
  pub size : ℕ

-- flDmabuf as the caller of flCreateChannelFromDmabufs gives it, with as many entries of its arrays as
-- its count of planes says.
pub record Input : Type 0 where
  pub layout : List BoPlane
  pub fourcc : ℕ
  pub modifier : ℕ

-- The system calls of adoptRing(): fstat, the duplicate of a descriptor, and gbm_bo_import.
pub record Calls : Type 0 where
  pub stat : ℕ → Option Stat
  pub duplicate : ℕ → Option ℕ
  pub import : Input → Option Bo

abbrev pub same_file : Stat → Stat → Bool
same_file a b = a.device == b.device && a.inode == b.inode

abbrev pub u32_max : ℕ
u32_max = 4294967295

-- The end of a plane in its file, `offset + stride*(rows-1) + rowBytes`.
abbrev pub plane_end : BoPlane → ℕ → ℕ → ℕ
plane_end p rows bytes = p.offset + p.stride * (rows - 1) + bytes

-- A plane of adoptRing() that passes its checks: what fstat() says of it.
unfoldable pub check_plane : Calls → List Stat → RingInfo → ℕ → BoPlane → Option Stat
check_plane sys prior info rows p = elim p.fd [
  | none ↦ none
  | some fd ↦
      let bytes = row_bytes info.format info.width in
      if ltb p.stride bytes || ltb u32_max p.stride || ltb u32_max p.offset
      then none
      else elim (sys.stat fd) [
        | none ↦ none
        | some st ↦
            if ltb 0 st.size && ltb st.size (plane_end p rows bytes)
            then none
            else if any (same_file st) prior
            then none
            else some st
      ]
]

-- The loop of adoptRing() over the planes of a slot, from plane i on.
unfoldable pub check_planes : Calls → List Stat → RingInfo → ℕ → List BoPlane → Option (List Stat)
unfolding check_plane
check_planes sys prior info i [] = some []
check_planes sys prior info i (p ∷ ps) =
    elim (check_plane sys prior info (if i == 0 then info.height else info.height / 2) p) [
      | none ↦ none
      | some st ↦ elim (check_planes sys prior info (suc i) ps) [
        | none ↦ none
        | some sts ↦ some (st ∷ sts)
      ]
    ]

-- The duplicates of a slot's descriptors, none where one fails.
unfoldable pub duplicate_planes : Calls → List BoPlane → Option (List Plane)
duplicate_planes sys [] = some []
duplicate_planes sys (p ∷ ps) = elim p.fd [
  | none ↦ none
  | some fd ↦ elim (sys.duplicate fd) [
    | none ↦ none
    | some owned ↦ elim (duplicate_planes sys ps) [
      | none ↦ none
      | some qs ↦ some (record { fd = owned; stride = p.stride; offset = p.offset } ∷ qs)
    ]
  ]
]

-- Whether an imported plane lies where the input says.
unfoldable pub same_layout : List BoPlane → List BoPlane → Bool
same_layout [] [] = true
same_layout (p ∷ ps) (q ∷ qs) = p.stride == q.stride && p.offset == q.offset && same_layout ps qs
same_layout _ _ = false

-- The checks of adoptRing() of an imported buffer object.
abbrev pub import_fits : RingInfo → Input → Bo → Bool
import_fits info d bo =
    bo.width == info.width
    && bo.height == info.height
    && bo.fourcc == d.fourcc
    && length bo.planes == planes_of info.format
    && same_layout bo.planes d.layout

-- The first checks of adoptRing() of a slot.
abbrev pub input_fits : ℕ → RingInfo → ℕ → Input → Bool
input_fits flags info modifier d =
    length d.layout == planes_of info.format
    && d.fourcc == fourcc_for info.format
    && d.modifier == modifier
    && (not (has_flag flags map_cpu) || d.modifier == linear)

-- A result of adoptRing(), or its error.
pub data Adopted : Type 0 where
  refused : FlResult → Adopted
  adopted : List ℕ → List Dmabuf → Adopted

abbrev pub add_image : ℕ → Dmabuf → Adopted → Adopted
add_image a d (refused r) = refused r
add_image a d (adopted images ds) = adopted (a ∷ images) (d ∷ ds)

-- The end of a slot in adoptRing(), behind the checks of its planes.
abbrev pub import_image : Calls → RingInfo → Input → Option (List Plane) → Adopted → Adopted
import_image sys info d none rest = refused invalid
import_image sys info d (some ps) rest = elim (sys.import d) [
  | none ↦ refused format_unsupported
  | some bo ↦
      if import_fits info d bo
      then add_image bo.address (record { planes = ps; fourcc = d.fourcc; modifier = d.modifier })
          rest
      else refused format_unsupported
]

-- The loop of adoptRing() over the slots, with the files of the slots before.
unfoldable pub adopt_images : Calls → ℕ → RingInfo → ℕ → List Stat → List Input → Adopted
unfolding check_planes duplicate_planes same_layout
adopt_images sys flags info modifier prior [] = adopted [] []
adopt_images sys flags info modifier prior (d ∷ ds) =
    if not (input_fits flags info modifier d)
    then refused format_unsupported
    else elim (check_planes sys prior info 0 d.layout) [
      | none ↦ refused invalid
      | some sts ↦
          import_image sys info d (duplicate_planes sys d.layout)
            (adopt_images sys flags info modifier (prior ++ sts) ds)
    ]

abbrev pub first_input_modifier : List Input → ℕ
first_input_modifier [] = 0
first_input_modifier (d ∷ ds) = d.modifier

-- The channel as createChannel() constructs it; `next` is the token counter of the process.
unfoldable pub new_consumer : ℕ → ℕ → RingInfo → Bool → Consumer
new_consumer next flags info external = record {
  flags = flags;
  info = info;
  images = [];
  dmabufs = [];
  external_pool = external;
  readers = new next;
  completions = replicate 256 no_completion;
  pending_fd = none;
  held_fd = none;
  releases = [];
  retired = 0;
  has_pending = false;
  pending_slot = 0;
  pending_ready = 0;
  pending_pts = negsuc 0;
  pending_metadata = no_metadata;
  pending_arrival = 0;
  frame_held = false;
  held_slot = 0;
  held_ready = 0;
  held_metadata = no_metadata;
  held_arrival = 0;
  sequence = 0;
  peer_features = 0;
  peer_connected = false;
  peer_gone = false;
}

abbrev pub with_pool : Consumer → List ℕ → List Dmabuf → Consumer
with_pool c images ds = record c {
  images = images;
  dmabufs = ds;
  info = record c.info { generation = c.info.generation + 1 };
}

-- What createChannel() does with the images that it allocates, and with those that it adopts.
abbrev pub close_allocation : Consumer → Option (List ℕ × List Dmabuf) → FlResult × Option Consumer
close_allocation c none = (oom, none)
close_allocation c (some (images, ds)) = (ok, some (with_pool c images ds))

abbrev pub close_adoption : Consumer → Adopted → FlResult × Option Consumer
close_adoption c (refused r) = (r, none)
close_adoption c (adopted images ds) = (ok, some (with_pool c images ds))

-- The arguments of createChannel() but the name, with the images that a caller of
-- flCreateChannelFromDmabufs gives.
pub record Creation : Type 0 where
  pub width : ℕ
  pub height : ℕ
  pub format : ℕ
  pub pool_size : ℕ
  pub flags : ℕ
  pub external : Option (List Input)

-- createChannel(); `node` is whether a render node opens, `gbm` the creation of a slot under a usage.
unfoldable pub create_channel :
    Calls → Bool → (ℕ → Usage → Option Bo) → ℕ → Creation → FlResult × Option Consumer
unfolding new_consumer
create_channel sys node gbm next a =
    let info : RingInfo = record {
      width = a.width;
      height = a.height;
      format = a.format;
      generation = 0;
    } in
    if not (valid_geometry a.width a.height a.format)
    then (invalid, none)
    else if fourcc_for a.format == 0
    then (format_unsupported, none)
    else if a.pool_size == 0 || ltb max_pool_size a.pool_size
    then (invalid, none)
    else if not node
    then (internal, none)
    else elim a.external [
      | none ↦
          close_allocation (new_consumer next a.flags info false)
            (allocate_all gbm a.flags a.format 0 a.pool_size)
      | some ds ↦
          close_adoption (new_consumer next a.flags info true)
            (adopt_images sys a.flags info (first_input_modifier ds) [] (take a.pool_size ds))
    ]
