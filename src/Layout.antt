-- ===== src/Layout.antt =====
-- The geometry of a ring and the bounds of an imported plane, src/fl_layout.h.
pub mod Planes
use framelink.Base.{
  ℕ, ◌+◌, ◌-◌, ◌*◌, ◌/◌, ◌%◌, Bool, true, false, not, ◌&&◌, ◌||◌, ltb, leb, ◌==◌, truthy,
  if◌then◌else◌,
}
use framelink.Api.{u64_max}

-- FL_FORMAT_NV12
abbrev pub format_nv12 : ℕ
format_nv12 = 2

-- validGeometry()
unfoldable pub valid_geometry : ℕ → ℕ → ℕ → Bool
valid_geometry w h format =
    truthy w
    && truthy h
    && leb w 8192
    && leb h 8192
    && (not (format == format_nv12) || (w % 2 == 0 && h % 2 == 0))

-- A result of uint64_t arithmetic.
abbrev pub wrap64 : ℕ → ℕ
wrap64 n = n % 18446744073709551616

-- The check of planeFits() that keeps its product from wrapping.
unfoldable pub too_many_rows : ℕ → ℕ → ℕ → Bool
too_many_rows stride rows row_bytes =
    truthy (rows - 1) && ltb ((u64_max - row_bytes) / (rows - 1)) stride

-- planeFits()
unfoldable pub plane_fits : ℕ → ℕ → ℕ → ℕ → ℕ → Bool
plane_fits size offset stride rows row_bytes =
    if rows == 0 || row_bytes == 0 || ltb stride row_bytes || ltb size offset
    then false
    else if too_many_rows stride rows row_bytes
    then false
    else leb (wrap64 (wrap64 ((rows - 1) * stride) + row_bytes)) (size - offset)
