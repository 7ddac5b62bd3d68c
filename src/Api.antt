-- ===== src/Api.antt =====
-- The types of include/framelink.h that the parts share. An `flImage*` is its address, 0 for null.
use framelink.Base.{ℕ, Bool, true, false}
use framelink.Base.Int.{ℤ}

-- flResult
pub data FlResult : Type 0 where
  ok timeout disconnected version_mismatch format_unsupported adapter_mismatch access_denied :
      FlResult
  not_found invalid oom internal busy : FlResult

abbrev pub is_ok : FlResult → Bool
is_ok ok = true
is_ok _ = false

-- FL_MAX_POOL_SIZE
abbrev pub max_pool_size : ℕ
max_pool_size = 16

-- UINT64_MAX
abbrev pub u64_max : ℕ
u64_max = 18446744073709551615

-- flFrame
pub record Frame : Type 0 where
  pub slot : ℕ
  pub image : ℕ
  pub pts_ns : ℤ
  pub sequence : ℕ
  pub ready_value : ℕ
