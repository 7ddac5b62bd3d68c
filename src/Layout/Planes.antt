-- ===== src/Layout/Planes.antt =====
-- planeFits() of src/fl_layout.h against exact arithmetic.
use framelink.Base.{
  ℕ, zero, suc, ◌+◌, ◌-◌, ◌*◌, ◌/◌, ◌≤◌, ◌<◌, ◌≡◌, sym, subst, Bool, true, false, ◌&&◌, ◌||◌, ltb,
  leb, ◌==◌, truthy, if◌then◌else◌, arith, Bool-cases, inl, inr, ◌↔◌,
}
use native.Mathlib.Nat.{le-div_iff_mul-le, mul_comm}
use framelink.Api.{u64_max}
use framelink.Layout.{wrap64, too_many_rows, plane_fits}

-- The quotient in the check bounds the product of the rows before the last one.
product_le : (stride above m : ℕ) → 0 < m → (stride ≤ above / m) ↔ (m * stride ≤ above)
product_le stride above m h =
    let (to, from) = le-div_iff_mul-le {k = m} {x = stride} {y = above} h in
    let swap = mul_comm stride m in
    ((λ le. subst (λ n. n ≤ above) swap (to le)), λ le. from (subst (λ n. n ≤ above) (sym swap) le))

one_row : (stride m : ℕ) → truthy m ≡ false → m * stride ≡ 0
one_row stride zero h = omega arith
one_row stride (suc m) h = absurd (ground (arith, h))

-- Without too many rows the plane's size fits in 64 bits.
no_wrap :
    (stride rows row_bytes : ℕ)
    → row_bytes ≤ u64_max
    → too_many_rows stride rows row_bytes ≡ false
    → (rows - 1) * stride + row_bytes ≤ u64_max
unfolding too_many_rows
no_wrap stride rows row_bytes small few = elim (Bool-cases (truthy (rows - 1))) [
  | inr single ↦ within ((rows - 1) * stride) (one_row stride (rows - 1) single)
  | inl several ↦
      bound ((rows - 1) * stride)
        ((product_le stride (u64_max - row_bytes) (rows - 1) (positive several)).0 (low several))
]
  where
    within : (n : ℕ) → n ≡ 0 → n + row_bytes ≤ u64_max
    within n e = omega (arith, e, small)

    bound : (n : ℕ) → n ≤ u64_max - row_bytes → n + row_bytes ≤ u64_max
    bound n h = omega (arith, h, small)

    positive : truthy (rows - 1) ≡ true → 0 < rows - 1
    positive h = ground (arith, h)

    low : truthy (rows - 1) ≡ true → stride ≤ (u64_max - row_bytes) / (rows - 1)
    low several = not_above ((u64_max - row_bytes) / (rows - 1)) (truthy (rows - 1)) several few
      where
        not_above : (q : ℕ) (b : Bool) → b ≡ true → (b && ltb q stride) ≡ false → stride ≤ q
        not_above q b t h = ground (arith, t, h)

too_large :
    (stride rows row_bytes : ℕ)
    → too_many_rows stride rows row_bytes ≡ true
    → u64_max < (rows - 1) * stride + row_bytes
unfolding too_many_rows
too_large stride rows row_bytes many = above ((rows - 1) * stride) (λ le.
    beyond ((u64_max - row_bytes) / (rows - 1)) (truthy (rows - 1)) many
      ((product_le stride (u64_max - row_bytes) (rows - 1) positive).1 le))
  where
    positive : 0 < rows - 1
    positive = nonzero (rows - 1) (ltb ((u64_max - row_bytes) / (rows - 1)) stride) many
      where
        nonzero : (n : ℕ) (b : Bool) → (truthy n && b) ≡ true → 0 < n
        nonzero n b h = ground (arith, h)

    beyond : (q : ℕ) (b : Bool) → (b && ltb q stride) ≡ true → stride ≤ q → ⊥
    beyond q b h le = ground (arith, h, le)

    above : (n : ℕ) → (n ≤ u64_max - row_bytes → ⊥) → u64_max < n + row_bytes
    above n h = ground (arith, h)

-- The test behind the checks, on the product of the rows before the last one.
exact :
    (size offset stride rows row_bytes n : ℕ)
    → n + row_bytes ≤ u64_max
    → ((if rows == 0 || row_bytes == 0 || ltb stride row_bytes || ltb size offset
          then false
          else leb (wrap64 (wrap64 n + row_bytes)) (size - offset))
        ≡ true)
      ↔ ((0 < rows) × (0 < row_bytes) × (row_bytes ≤ stride) × (offset + (n + row_bytes) ≤ size))
exact size offset stride rows row_bytes n room = (ground (arith, room), ground (arith, room))

-- Of a buffer and a row whose sizes fit in 64 bits, a plane is accepted exactly when it has rows
-- and bytes, its stride covers a row, and its last byte lies within the buffer. The sums are
-- exact: none of them wraps.
pub plane_fits_iff :
    (size offset stride rows row_bytes : ℕ)
    → size ≤ u64_max
    → row_bytes ≤ u64_max
    → (plane_fits size offset stride rows row_bytes ≡ true) ↔ (
        (0 < rows)
        × (0 < row_bytes)
        × (row_bytes ≤ stride)
        × (offset + ((rows - 1) * stride + row_bytes) ≤ size))
unfolding plane_fits
plane_fits_iff size offset stride rows row_bytes sized small =
    elim (Bool-cases (too_many_rows stride rows row_bytes)) [
      | inl many ↦ rw many (
        (λ accepted. absurd (refused _ accepted)),
        λ (_, _, _, inside).
            absurd (omega (arith, inside, sized, too_large stride rows row_bytes many)),
      )
      | inr few ↦ rw few (
          exact size offset stride rows row_bytes ((rows - 1) * stride)
            (no_wrap stride rows row_bytes small few))
    ]
  where
    refused : (b : Bool) → (if b then false else false) ≡ true → ⊥
    refused b h = ground (arith, h)
