-- ===== src/Consumer/Allocation/Pools.antt =====
-- The pools that createChannel of src/framelink_linux.cpp adopts, as rings to hand over.
use framelink.Base.{
  ℕ, zero, suc, ◌+◌, ◌/◌, ◌≡◌, ◌≢◌, ◌≤◌, refl, sym, ap, subst, ◌∙◌, Bool, true, false, not, ◌||◌,
  Option, none, some, List, [], ◌∷◌, ◌++◌, ltb, ◌==◌, if◌then◌else◌, length, take, All, arith,
  Bool-cases, Option-cases, inl, inr,
}
use framelink.Api.{FlResult, ok, max_pool_size, invalid, internal, format_unsupported}
use framelink.Layout.{valid_geometry}
use framelink.Ring.{
  Plane, Dmabuf, RingInfo, fourcc_for, planes_of, row_bytes, adopted_ring, ring_message,
}
use framelink.Ring.Handover.{Fits, adopted_ring-ring_message}
use framelink.Consumer.{Consumer}
use framelink.Consumer.Allocation.{
  BoPlane, Bo, Calls, Stat, Input, check_plane, check_planes, duplicate_planes, import_fits,
  input_fits, import_image, Adopted, refused, adopted, add_image, adopt_images, create_channel,
  close_adoption, new_consumer, Usage, Creation, first_input_modifier, close_allocation,
  allocate_all,
}

-- What holds of an optional result, where there is one.
abbrev Given {ℓ} : {A : Type ℓ} → (A → Type 0) → Option A → Type 0
Given P none = Unit
Given P (some a) = P a

abbrev LongRows : RingInfo → List BoPlane → Type 0
LongRows info = All (λ (p : BoPlane). row_bytes info.format info.width ≤ p.stride)

check_plane_passed :
    (sys : Calls) (prior : List Stat) (info : RingInfo) (rows : ℕ) (p : BoPlane) (st : Stat)
    → check_plane sys prior info rows p ≡ some st
    → row_bytes info.format info.width ≤ p.stride
unfolding check_plane
check_plane_passed sys prior info rows p st h = ground (arith, h)

check_plane_long :
    (sys : Calls) (prior : List Stat) (info : RingInfo) (rows : ℕ) (p : BoPlane)
    → Given (λ _. row_bytes info.format info.width ≤ p.stride) (check_plane sys prior info rows p)
check_plane_long sys prior info rows p = elim (Option-cases (check_plane sys prior info rows p)) [
  | inl nothing ↦ rw (nothing, Given) tt
  | inr (st, passed) ↦ rw (passed, Given) (check_plane_passed sys prior info rows p st passed)
]

check_planes-LongRows :
    (sys : Calls) (prior : List Stat) (info : RingInfo) (i : ℕ) (ps : List BoPlane)
    → Given (λ _. LongRows info ps) (check_planes sys prior info i ps)
unfolding check_planes
check_planes-LongRows sys prior info i [] = tt
check_planes-LongRows sys prior info i (p ∷ ps) =
    both _ _ (check_plane_long sys prior info (if i == 0 then info.height else info.height / 2) p)
      (check_planes-LongRows sys prior info (suc i) ps)
  where
    both :
        (o : Option Stat) (rest : Option (List Stat))
        → Given (λ _. row_bytes info.format info.width ≤ p.stride) o
        → Given (λ _. LongRows info ps) rest
        → Given
            (λ _. LongRows info (p ∷ ps))
            (elim o [
              | none ↦ none
              | some st ↦ elim rest [ none ↦ none | some sts ↦ some (st ∷ sts) ]
            ])
    both none rest here later = tt
    both (some st) none here later = tt
    both (some st) (some sts) here later = (here, later)

-- The planes that are kept: as many, with rows as long.
abbrev Kept : ℕ → List BoPlane → List Plane → Type 0
Kept n ps qs = (length qs ≡ length ps) × All (λ (q : Plane). n ≤ q.stride) qs

duplicate_planes-Kept :
    (n : ℕ) (sys : Calls) (ps : List BoPlane)
    → All (λ (p : BoPlane). n ≤ p.stride) ps
    → Given (Kept n ps) (duplicate_planes sys ps)
unfolding duplicate_planes
duplicate_planes-Kept n sys [] long = (refl, tt)
duplicate_planes-Kept n sys (p ∷ ps) (here, later) =
    owned p.fd (duplicate_planes sys ps) (duplicate_planes-Kept n sys ps later)
  where
    owned :
        (fd : Option ℕ) (rest : Option (List Plane))
        → Given (Kept n ps) rest
        → Given (Kept n (p ∷ ps)) (elim fd [
          | none ↦ none
          | some fd ↦ elim (sys.duplicate fd) [
            | none ↦ none
            | some owned ↦ elim rest [
              | none ↦ none
              | some qs ↦ some (record { fd = owned; stride = p.stride; offset = p.offset } ∷ qs)
            ]
          ]
        ])
    owned none rest kept = tt
    owned (some fd) rest kept = duplicated (sys.duplicate fd) rest kept
      where
        duplicated :
            (o : Option ℕ) (rest : Option (List Plane))
            → Given (Kept n ps) rest
            → Given (Kept n (p ∷ ps)) (elim o [
              | none ↦ none
              | some owned ↦ elim rest [
                | none ↦ none
                | some qs ↦ some (record { fd = owned; stride = p.stride; offset = p.offset } ∷ qs)
              ]
            ])
        duplicated none rest kept = tt
        duplicated (some own) none kept = tt
        duplicated (some own) (some qs) (count, rows) = (ap suc count, (here, rows))

-- What adoptRing() gives of n slots, where it does not refuse them.
abbrev PoolFits : RingInfo → ℕ → ℕ → Adopted → Type 0
PoolFits info modifier n (refused r) = Unit
PoolFits info modifier n (adopted images ds) =
    (length images ≡ n) × (length ds ≡ n) × All (Fits info modifier) ds

import_image-PoolFits :
    (sys : Calls) (info : RingInfo) (modifier n : ℕ) (d : Input) (o : Option (List Plane))
    (rest : Adopted)
    → length d.layout ≡ planes_of info.format
    → d.fourcc ≡ fourcc_for info.format
    → d.modifier ≡ modifier
    → Given (Kept (row_bytes info.format info.width) d.layout) o
    → PoolFits info modifier n rest
    → PoolFits info modifier (suc n) (import_image sys info d o rest)
import_image-PoolFits sys info modifier n d none rest count fourcc same kept fits = tt
import_image-PoolFits sys info modifier n d (some ps) rest count fourcc same kept fits =
    imported (sys.import d) rest fits
  where
    imported :
        (o : Option Bo) (rest : Adopted)
        → PoolFits info modifier n rest
        → PoolFits info modifier (suc n) (elim o [
          | none ↦ refused format_unsupported
          | some bo ↦
              if import_fits info d bo
              then add_image bo.address
                  (record { planes = ps; fourcc = d.fourcc; modifier = d.modifier })
                  rest
              else refused format_unsupported
        ])
    imported none rest fits = tt
    imported (some bo) rest fits = checked (import_fits info d bo) rest fits
      where
        checked :
            (b : Bool) (rest : Adopted)
            → PoolFits info modifier n rest
            → PoolFits info modifier (suc n) (
                if b
                then add_image bo.address
                    (record { planes = ps; fourcc = d.fourcc; modifier = d.modifier })
                    rest
                else refused format_unsupported)
        checked false rest fits = tt
        checked true (refused r) fits = tt
        checked true (adopted images ds) (images_count, ds_count, fits) = (
          ap suc images_count,
          ap suc ds_count,
          (
            record { count = kept.0 ∙ count; rows = kept.1; fourcc = fourcc; same_modifier = same },
            fits,
          ),
        )

adopt_images-PoolFits :
    (sys : Calls) (flags : ℕ) (info : RingInfo) (modifier : ℕ) (prior : List Stat) (ds : List Input)
    → PoolFits info modifier (length ds) (adopt_images sys flags info modifier prior ds)
unfolding adopt_images
adopt_images-PoolFits sys flags info modifier prior [] = (refl, refl, tt)
adopt_images-PoolFits sys flags info modifier prior (d ∷ ds) =
    elim (Bool-cases (input_fits flags info modifier d)) [
      | inr unfit ↦ rw (unfit, PoolFits) tt
      | inl fit ↦
          rw (fit, PoolFits)
            (checked (check_planes sys prior info 0 d.layout) (fields fit)
              (check_planes-LongRows sys prior info 0 d.layout)
              (λ sts. adopt_images-PoolFits sys flags info modifier (prior ++ sts) ds))
    ]
  where
    fields :
        input_fits flags info modifier d ≡ true
        → (length d.layout ≡ planes_of info.format)
          × (d.fourcc ≡ fourcc_for info.format)
          × (d.modifier ≡ modifier)
    fields h = (ground (arith, h), ground (arith, h), ground (arith, h))

    checked :
        (o : Option (List Stat))
        → (length d.layout ≡ planes_of info.format)
          × (d.fourcc ≡ fourcc_for info.format)
          × (d.modifier ≡ modifier)
        → Given (λ _. LongRows info d.layout) o
        → ((sts : List Stat)
            → PoolFits info modifier
                (length ds)
                (adopt_images sys flags info modifier (prior ++ sts) ds))
        → PoolFits info modifier (suc (length ds)) (elim o [
          | none ↦ refused invalid
          | some sts ↦
              import_image sys info d
                (duplicate_planes sys d.layout)
                (adopt_images sys flags info modifier (prior ++ sts) ds)
        ])
    checked none parts long later = tt
    checked (some sts) (count, fourcc, same) long later =
        import_image-PoolFits sys info modifier (length ds) d (duplicate_planes sys d.layout) _
          count fourcc same
          (duplicate_planes-Kept (row_bytes info.format info.width) sys d.layout long) (later sts)

-- A channel whose ring has n images, which the producer adopts just as they are.
abbrev IsReady : ℕ → FlResult × Option Consumer → Type 0
IsReady n (r, none) = Unit
IsReady n (r, some c) =
    (length c.images ≡ n)
    × (adopted_ring (ring_message c.info c.dmabufs).0 (ring_message c.info c.dmabufs).1
        ≡ some (c.info, c.dmabufs))

IsReady-if :
    (n : ℕ) (b : Bool) (r : FlResult) (x : FlResult × Option Consumer)
    → (b ≡ false → IsReady n x)
    → IsReady n (if b then (r, none) else x)
IsReady-if n true r x h = tt
IsReady-if n false r x h = h refl

module _ (next flags : ℕ) (info : RingInfo) where
  close_adoption-IsReady :
      (modifier n : ℕ) (o : Adopted)
      → valid_geometry info.width info.height info.format ≡ true
      → fourcc_for info.format ≢ 0
      → n ≢ 0
      → n ≤ max_pool_size
      → PoolFits info modifier n o
      → IsReady n (close_adoption (new_consumer next flags info true) o)
  unfolding new_consumer
  close_adoption-IsReady modifier n (refused r) geometry known some_image few fits = tt
  close_adoption-IsReady modifier n (adopted images ds) geometry known some_image few
        (images_count, count, fits) =
      (
        images_count,
        adopted_ring-ring_message (record info { generation = info.generation + 1 }) modifier ds
            geometry known (λ e. some_image (sym count ∙ e))
            (subst (λ k. k ≤ max_pool_size) (sym count) few) (next_generation ds fits),
      )
    where
      next_generation :
          (ds : List Dmabuf)
          → All (Fits info modifier) ds
          → All (Fits (record info { generation = info.generation + 1 }) modifier) ds
      next_generation [] fits = tt
      next_generation (d ∷ ds) (f, fits) = (
        record {
          count = f.count;
          rows = f.rows;
          fourcc = f.fourcc;
          same_modifier = f.same_modifier;
        },
        next_generation ds fits,
      )

length-take : {A : Type 0} (n : ℕ) (xs : List A) → n ≤ length xs → length (take n xs) ≡ n
length-take zero xs h = refl
length-take (suc n) [] h = omega (arith, h)
length-take (suc n) (x ∷ xs) h = ap suc (length-take n xs (omega (arith, h)))

create_channel-IsReady :
    (sys : Calls) (node : Bool) (gbm : ℕ → Usage → Option Bo) (next : ℕ) (a : Creation)
    (ds : List Input)
    → a.external ≡ some ds
    → a.pool_size ≤ length ds
    → IsReady a.pool_size (create_channel sys node gbm next a)
unfolding create_channel
create_channel-IsReady sys node gbm next a ds external enough =
    IsReady-if n (not (valid_geometry a.width a.height a.format)) invalid _ (λ geometry.
      IsReady-if n (fourcc_for a.format == 0) format_unsupported _ (λ known.
        IsReady-if n (a.pool_size == 0 || ltb max_pool_size a.pool_size) invalid _ (λ sized.
          IsReady-if n (not node) internal _ (λ opened.
            pool a.external external (ground (arith, geometry)) (ground (arith, known))
              (ground (arith, sized)) (ground (arith, sized))))))
  where
    n : ℕ
    n = a.pool_size

    info : RingInfo
    info = record { width = a.width; height = a.height; format = a.format; generation = 0 }

    pool :
        (o : Option (List Input))
        → o ≡ some ds
        → valid_geometry a.width a.height a.format ≡ true
        → fourcc_for a.format ≢ 0
        → n ≢ 0
        → n ≤ max_pool_size
        → IsReady n (elim o [
          | none ↦
              close_allocation
                (new_consumer next a.flags info false)
                (allocate_all gbm a.flags a.format 0 a.pool_size)
          | some ds ↦
              close_adoption
                (new_consumer next a.flags info true)
                (adopt_images sys a.flags info (first_input_modifier ds) [] (take a.pool_size ds))
        ])
    pool none e geometry known some_image few = cc e
    pool (some es) e geometry known some_image few =
        close_adoption-IsReady next a.flags info (first_input_modifier es) n _ geometry known
          some_image few
          (subst
            (λ k.
              PoolFits info (first_input_modifier es) k
                (adopt_images sys a.flags info (first_input_modifier es) [] (take n es)))
            (length-take n es (subst (λ (xs : List Input). n ≤ length xs) same enough))
            (adopt_images-PoolFits sys a.flags info (first_input_modifier es) [] (take n es)))
      where
        same : ds ≡ es
        same = cc e

-- A channel that flCreateChannelFromDmabufs creates has as many images as were asked for, and a producer adopts the ring
-- that it hands over just as it is, whatever the caller's buffers and the system calls are.
pub create_channel-adopted_ring :
    (sys : Calls) (node : Bool) (gbm : ℕ → Usage → Option Bo) (next : ℕ) (a : Creation)
    (ds : List Input) (c : Consumer)
    → a.external ≡ some ds
    → a.pool_size ≤ length ds
    → create_channel sys node gbm next a ≡ (ok, some c)
    → (length c.images ≡ a.pool_size)
      × (adopted_ring (ring_message c.info c.dmabufs).0 (ring_message c.info c.dmabufs).1
          ≡ some (c.info, c.dmabufs))
create_channel-adopted_ring sys node gbm next a ds c external enough created =
    subst (IsReady a.pool_size) created
      (create_channel-IsReady sys node gbm next a ds external enough)
