-- ===== src/Ring/Handover.antt =====
-- Both ends of handing a ring of src/framelink_linux.cpp over: the images that the consumer has, and
-- those that the producer adopts.
use framelink.Base.{
  if◌then◌else◌, ℕ, zero, suc, ◌+◌, ◌-◌, ◌*◌, ◌<◌, Bool-cases, inl, inr, none, ◌≡◌, refl, sym, ap,
  ap₂, subst, ◌∙◌, true, some, List, [], ◌∷◌, ◌++◌, map, leb, ◌==◌, length, drop, all, All, arith,
  &&_true, ==_iff, ==_refl, ==_ne, length-append, ◌≤◌, ◌≢◌, le→leb, leb→le,
}
use framelink.Api.{max_pool_size}
use framelink.Layout.{valid_geometry}
use framelink.Ring.{
  PlaneLayout, Plane, Dmabuf, RingInfo, RingDesc, fourcc_for, planes_of, row_bytes, layout_of,
  fds_of, all_fds, ring_message, import_planes, import_images, slot_fits, ring_valid, adopted_ring,
  ring_info,
}

-- An image that fits its ring: the planes of the format, each with rows that are long enough, the DRM
-- format and the modifier of the ring.
pub record Fits (info : RingInfo) (modifier : ℕ) (d : Dmabuf) : Type 0 where
  pub count : length d.planes ≡ planes_of info.format
  pub rows : All (λ (p : Plane). row_bytes info.format info.width ≤ p.stride) d.planes
  pub fourcc : d.fourcc ≡ fourcc_for info.format
  pub same_modifier : d.modifier ≡ modifier

drop_append : {A : Type 0} (xs ys : List A) → drop (length xs) (xs ++ ys) ≡ ys
drop_append [] ys = refl
drop_append (x ∷ xs) ys = drop_append xs ys

import_planes-fds_of :
    (ps : List Plane) (fds : List ℕ) → import_planes (map layout_of ps) (fds_of ps ++ fds) ≡ ps
unfolding import_planes
import_planes-fds_of [] fds = refl
import_planes-fds_of (p ∷ ps) fds = ap (λ qs. p ∷ qs) (import_planes-fds_of ps fds)

drop-fds_of :
    (ps : List Plane) (fds : List ℕ) → drop (length (map layout_of ps)) (fds_of ps ++ fds) ≡ fds
drop-fds_of [] fds = refl
drop-fds_of (p ∷ ps) fds = drop-fds_of ps fds

import_images-all_fds :
    (info : RingInfo) (modifier : ℕ) (ds : List Dmabuf)
    → All (Fits info modifier) ds
    → import_images
        (fourcc_for info.format)
        modifier
        (map (λ d. map layout_of d.planes) ds)
        (all_fds ds)
      ≡ ds
unfolding import_images all_fds
import_images-all_fds info modifier [] fit = refl
import_images-all_fds info modifier (d ∷ ds) (f, fit) =
    rw (import_planes-fds_of d.planes (all_fds ds), drop-fds_of d.planes (all_fds ds))
      (ap₂ (λ (e : Dmabuf) es. e ∷ es) same (import_images-all_fds info modifier ds fit))
  where
    same :
        ◌≡◌ {A = Dmabuf}
          (record { planes = d.planes; fourcc = fourcc_for info.format; modifier = modifier })
          d
    same = rw (sym f.fourcc, sym f.same_modifier) refl

length-fds_of : (ps : List Plane) → length (fds_of ps) ≡ length ps
length-fds_of [] = refl
length-fds_of (p ∷ ps) = ap suc (length-fds_of ps)

length-layouts : (ps : List Plane) → length (map layout_of ps) ≡ length ps
length-layouts [] = refl
length-layouts (p ∷ ps) = ap suc (length-layouts ps)

length-all_fds :
    (info : RingInfo) (modifier : ℕ) (ds : List Dmabuf)
    → All (Fits info modifier) ds
    → length (all_fds ds) ≡ length ds * planes_of info.format
unfolding all_fds
length-all_fds info modifier [] fit = omega arith
length-all_fds info modifier (d ∷ ds) (f, fit) =
    length-append (fds_of d.planes) (all_fds ds)
    ∙ ap₂ (λ a b. a + b) (length-fds_of d.planes ∙ f.count) (length-all_fds info modifier ds fit)
    ∙ next (length ds) (planes_of info.format)
  where
    next : (n k : ℕ) → k + n * k ≡ suc n * k
    next n k = omega arith

length-map : {A B : Type 0} (f : A → B) (xs : List A) → length (map f xs) ≡ length xs
length-map f [] = refl
length-map f (x ∷ xs) = ap suc (length-map f xs)

rows_fit :
    (n : ℕ) (ps : List Plane)
    → All (λ (p : Plane). n ≤ p.stride) ps
    → all (λ l. leb n l.stride) (map layout_of ps) ≡ true
rows_fit n [] fit = refl
rows_fit n (p ∷ ps) (f, fit) = rw (le→leb n p.stride f) (rows_fit n ps fit)

slots_fit :
    (rd : RingDesc) (info : RingInfo) (modifier : ℕ) (ds : List Dmabuf)
    → rd.format ≡ info.format
    → rd.width ≡ info.width
    → All (Fits info modifier) ds
    → all (slot_fits rd) (map (λ d. map layout_of d.planes) ds) ≡ true
slots_fit rd info modifier [] formats widths fit = refl
slots_fit rd info modifier (d ∷ ds) formats widths (f, fit) =
    rw (formats, widths, length-layouts d.planes, f.count)
      (rw
        (
          ==_refl (planes_of info.format),
          rows_fit (row_bytes info.format info.width) d.planes f.rows,
        )
        (slots_fit rd info modifier ds formats widths fit))

ring_valid_intro :
    (rd : RingDesc) (fds : List ℕ)
    → length rd.layouts ≢ 0
    → length rd.layouts ≤ max_pool_size
    → valid_geometry rd.width rd.height rd.format ≡ true
    → rd.fourcc ≡ fourcc_for rd.format
    → fourcc_for rd.format ≢ 0
    → all (slot_fits rd) rd.layouts ≡ true
    → length fds ≡ length rd.layouts * planes_of rd.format
    → ring_valid rd fds ≡ true
unfolding ring_valid
ring_valid_intro rd fds some_image few geometry fourcc known fit sent =
    rw
      (
        geometry,
        fit,
        fourcc,
        sent,
        ==_ne (length rd.layouts) 0 some_image,
        le→leb (length rd.layouts) max_pool_size few,
        ==_refl (fourcc_for rd.format),
        ==_ne (fourcc_for rd.format) 0 known,
        ==_refl (length rd.layouts * planes_of rd.format),
      )
      refl

-- The producer that receives the consumer's description of its ring adopts just the images that the
-- consumer has, with their geometry and generation, where the ring has one to sixteen images that fit
-- its format.
pub adopted_ring-ring_message :
    (info : RingInfo) (modifier : ℕ) (ds : List Dmabuf)
    → valid_geometry info.width info.height info.format ≡ true
    → fourcc_for info.format ≢ 0
    → length ds ≢ 0
    → length ds ≤ max_pool_size
    → All (Fits info modifier) ds
    → adopted_ring (ring_message info ds).0 (ring_message info ds).1 ≡ some (info, ds)
unfolding adopted_ring ring_message
adopted_ring-ring_message info modifier [] geometry known some_image few fit =
    elim (some_image refl) [ ]
adopted_ring-ring_message info modifier (d ∷ ds) geometry known some_image few (f, fit) =
    rw (valid) (ap (λ es. some (info, es)) images)
  where
    rd : RingDesc
    rd = (ring_message info (d ∷ ds)).0

    images : import_images d.fourcc d.modifier rd.layouts (all_fds (d ∷ ds)) ≡ d ∷ ds
    images =
        subst (λ c. import_images c d.modifier rd.layouts (all_fds (d ∷ ds)) ≡ d ∷ ds)
          (sym f.fourcc)
          (subst
            (λ m. import_images (fourcc_for info.format) m rd.layouts (all_fds (d ∷ ds)) ≡ d ∷ ds)
            (sym f.same_modifier) (import_images-all_fds info modifier (d ∷ ds) (f, fit)))

    slots : length rd.layouts ≡ length (d ∷ ds)
    slots = length-map (λ d. map layout_of d.planes) (d ∷ ds)

    valid : ring_valid rd (all_fds (d ∷ ds)) ≡ true
    valid =
        ring_valid_intro rd (all_fds (d ∷ ds)) (omega (arith, slots)) (omega (arith, slots, few))
          geometry f.fourcc known (slots_fit rd info modifier (d ∷ ds) refl refl (f, fit))
          (length-all_fds info modifier (d ∷ ds) (f, fit)
            ∙ ap (λ n. n * planes_of info.format) (sym slots))

imported_rows :
    (n : ℕ) (ls : List PlaneLayout) (fds : List ℕ)
    → length ls ≤ length fds
    → all (λ l. leb n l.stride) ls ≡ true
    → (length (import_planes ls fds) ≡ length ls)
      × All (λ (p : Plane). n ≤ p.stride) (import_planes ls fds)
unfolding import_planes
imported_rows n [] fds enough long = (refl, tt)
imported_rows n (l ∷ ls) [] enough long = elim (none_left enough) [ ]
  where
    none_left : suc (length ls) ≤ 0 → ⊥
    none_left h = omega (arith, h)
imported_rows n (l ∷ ls) (fd ∷ fds) enough long =
    let (here, later) = &&_true (leb n l.stride) (all (λ l. leb n l.stride) ls) long in
    let (count, rest) = imported_rows n ls fds (omega (arith, enough)) later in
    (ap suc count, (leb→le n l.stride here, rest))

length-drop : {A : Type 0} (n : ℕ) (xs : List A) → length (drop n xs) ≡ length xs - n
length-drop zero xs = omega arith
length-drop (suc n) [] = omega arith
length-drop (suc n) (x ∷ xs) = omega (arith, length-drop n xs)

imported_Fits :
    (rd : RingDesc) (slots : List (List PlaneLayout)) (fds : List ℕ)
    → rd.fourcc ≡ fourcc_for rd.format
    → all (slot_fits rd) slots ≡ true
    → length fds ≡ length slots * planes_of rd.format
    → (length (import_images rd.fourcc rd.modifier slots fds) ≡ length slots)
      × All (Fits (ring_info rd) rd.modifier) (import_images rd.fourcc rd.modifier slots fds)
unfolding import_images
imported_Fits rd [] fds fourcc fit sent = (refl, tt)
imported_Fits rd (ls ∷ slots) fds fourcc fit sent =
    let (here, later) = &&_true (slot_fits rd ls) (all (slot_fits rd) slots) fit in
    let (counted, long) =
      &&_true (length ls == planes_of rd.format)
        (all (λ l. leb (row_bytes rd.format rd.width) l.stride) ls) here in
    let count : length ls ≡ planes_of rd.format =
      (==_iff (length ls) (planes_of rd.format)).0 counted in
    let (planes, rows) =
      imported_rows (row_bytes rd.format rd.width) ls fds
        (enough (length slots) (planes_of rd.format) count sent) long in
    let (images, rest) =
      imported_Fits rd slots (drop (length ls) fds) fourcc later
        (length-drop (length ls) fds ∙ left (length slots) (planes_of rd.format) count sent) in
    (
      ap suc images,
      (record { count = planes ∙ count; rows = rows; fourcc = fourcc; same_modifier = refl }, rest),
    )
  where
    enough : (n k : ℕ) → length ls ≡ k → length fds ≡ suc n * k → length ls ≤ length fds
    enough n k c e = omega (arith, c, e)

    left : (n k : ℕ) → length ls ≡ k → length fds ≡ suc n * k → length fds - length ls ≡ n * k
    left n k c e = omega (arith, c, e)

ring_valid_parts :
    (rd : RingDesc) (fds : List ℕ)
    → ring_valid rd fds ≡ true
    → (valid_geometry rd.width rd.height rd.format ≡ true)
      × (0 < length rd.layouts)
      × (length rd.layouts ≤ max_pool_size)
      × (rd.fourcc ≡ fourcc_for rd.format)
      × (all (slot_fits rd) rd.layouts ≡ true)
      × (length fds ≡ length rd.layouts * planes_of rd.format)
unfolding ring_valid
ring_valid_parts rd fds h = (
  ground (arith, h),
  ground (arith, h),
  ground (arith, h),
  ground (arith, h),
  ground (arith, h),
  ground (arith, h),
)

-- Whatever ring is described to the producer, what it adopts has the geometry and the generation
-- of the description, one to sixteen images, and images that fit: each has the planes of the format, rows that are
-- long enough for the width, and the DRM format of the description's format.
pub adopted_ring-Fits :
    (rd : RingDesc) (fds : List ℕ) (info : RingInfo) (ds : List Dmabuf)
    → adopted_ring rd fds ≡ some (info, ds)
    → (info ≡ ring_info rd)
      × (valid_geometry info.width info.height info.format ≡ true)
      × (0 < length ds)
      × (length ds ≤ max_pool_size)
      × All (Fits info rd.modifier) ds
unfolding adopted_ring
adopted_ring-Fits rd fds info ds h = elim (Bool-cases (ring_valid rd fds)) [
  | inr refused ↦ cc (subst (λ b. (if b then some adopted else none) ≡ some (info, ds)) refused h)
  | inl valid ↦
      let same : adopted ≡ (info, ds) =
        cc (subst (λ b. (if b then some adopted else none) ≡ some (info, ds)) valid h) in
      let (geometry, some_image, few, fourcc, fit, sent) = ring_valid_parts rd fds valid in
      let (images, fits) = imported_Fits rd rd.layouts fds fourcc fit sent in
      subst
        (λ (x : RingInfo × List Dmabuf).
          (x.0 ≡ ring_info rd)
          × (valid_geometry x.0.width x.0.height x.0.format ≡ true)
          × (0 < length x.1)
          × (length x.1 ≤ max_pool_size)
          × All (Fits x.0 rd.modifier) x.1)
        same (refl, geometry, omega (arith, images, some_image), omega (arith, images, few), fits)
]
  where
    adopted : RingInfo × List Dmabuf
    adopted = (ring_info rd, import_images rd.fourcc rd.modifier rd.layouts fds)
