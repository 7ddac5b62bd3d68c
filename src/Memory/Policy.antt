-- ===== src/Memory/Policy.antt =====
-- What flMemoryEvaluate of src/framelink_memory.cpp decides, as inclusions between sets of flags.
use framelink.Base.{◌≡◌, ◌≢◌, ◌↔◌, refl, true, some, arith, bit_or}
use framelink.Base.Masks.{IsWord, without, Within, without-zero, Within-or, or-IsWord}
use framelink.Memory.{
  ok, Requirements, MemoryPath, usage_all, resource_all, operations_all, validate, validate_path,
  decide, verdict, evaluate, all_zero, memory_version,
}

-- The fields are `uint32_t`.
pub record HasWords (r : Requirements) : Type 0 where
  pub required : IsWord r.required_usage
  pub preferred : IsWord r.preferred_usage
  pub types : IsWord r.allowed_types
  pub operations : IsWord r.allowed_operations

pub record PathHasWords (p : MemoryPath) : Type 0 where
  pub kind : IsWord p.resource_type
  pub supported : IsWord p.supported_usage
  pub operations : IsWord p.operations

-- The path offers every required usage, is of an allowed type, and needs only allowed operations.
pub record Permits (r : Requirements) (p : MemoryPath) : Type 0 where
  pub usage : Within r.required_usage p.supported_usage
  pub kind : Within p.resource_type r.allowed_types
  pub operations : Within p.operations r.allowed_operations

pub record IsValid (r : Requirements) : Type 0 where
  pub version : r.version ≡ memory_version
  pub required : Within r.required_usage usage_all
  pub preferred : Within r.preferred_usage usage_all
  pub some_type : r.allowed_types ≢ 0
  pub types : Within r.allowed_types resource_all
  pub operations : Within r.allowed_operations operations_all
  pub reserved : all_zero r.reserved ≡ true

validate_tests :
    (r : Requirements)
    → (validate (some r) ≡ ok) ↔ (
        (r.version ≡ memory_version)
        × (without (bit_or r.required_usage r.preferred_usage) usage_all ≡ 0)
        × (r.allowed_types ≢ 0)
        × (without r.allowed_types resource_all ≡ 0)
        × (without r.allowed_operations operations_all ≡ 0)
        × (all_zero r.reserved ≡ true))
unfolding validate
validate_tests r = ground arith

module _ (r : Requirements) (w : HasWords r) where
  usage_bits :
      (without (bit_or r.required_usage r.preferred_usage) usage_all ≡ 0)
      ↔ (Within r.required_usage usage_all × Within r.preferred_usage usage_all)
  usage_bits =
      let (to, from) =
        without-zero (bit_or r.required_usage r.preferred_usage) usage_all
          (or-IsWord r.required_usage r.preferred_usage w.required w.preferred) (omega arith) in
      let (apart, join) = Within-or r.required_usage r.preferred_usage usage_all in
      ((λ h. apart (to h)), λ h. from (join h))

  pub validate-IsValid : validate (some r) ≡ ok → IsValid r
  validate-IsValid e =
      let (version, usage, typed, types, operations, reserved) = (validate_tests r).0 e in
      record {
        version = version;
        required = (usage_bits.0 usage).0;
        preferred = (usage_bits.0 usage).1;
        some_type = typed;
        types = (without-zero r.allowed_types resource_all w.types (omega arith)).0 types;
        operations =
            (without-zero r.allowed_operations operations_all w.operations (omega arith)).0
              operations;
        reserved = reserved;
      }

  pub validate_of_IsValid : IsValid r → validate (some r) ≡ ok
  validate_of_IsValid v = (validate_tests r).1 (
    v.version,
    usage_bits.1 (v.required, v.preferred),
    v.some_type,
    (without-zero r.allowed_types resource_all w.types (omega arith)).1 v.types,
    (without-zero r.allowed_operations operations_all w.operations (omega arith)).1 v.operations,
    v.reserved,
  )

pub evaluate_lem :
    (r : Requirements) (p : MemoryPath)
    → validate (some r) ≡ ok
    → validate_path (some p) ≡ ok
    → evaluate (some r) (some p) true ≡ (verdict (decide r p), some (decide r p))
unfolding evaluate
evaluate_lem r p vr vp = rw (vr, vp) refl

verdict_ok :
    (r : Requirements) (p : MemoryPath)
    → (verdict (decide r p) ≡ ok) ↔ (
        (without r.required_usage p.supported_usage ≡ 0)
        × (without p.resource_type r.allowed_types ≡ 0)
        × (without p.operations r.allowed_operations ≡ 0))
verdict_ok r p = ground arith

pub verdict-Permits :
    (r : Requirements) (p : MemoryPath)
    → HasWords r
    → PathHasWords p
    → (verdict (decide r p) ≡ ok) ↔ Permits r p
verdict-Permits r p wr wp =
    let (to, from) = verdict_ok r p in
    let usage = without-zero r.required_usage p.supported_usage wr.required wp.supported in
    let kind = without-zero p.resource_type r.allowed_types wp.kind wr.types in
    let operations = without-zero p.operations r.allowed_operations wp.operations wr.operations in
    (
      λ e. record {
        usage = usage.0 (to e).0;
        kind = kind.0 (to e).1;
        operations = operations.0 (to e).2;
      },
      λ h. from (usage.1 h.usage, kind.1 h.kind, operations.1 h.operations),
    )

-- Of valid requirements and a valid path, all with words of 32 bits, the evaluation is OK exactly
-- when the path offers every required usage flag, its type is allowed, and each of its operations
-- is allowed. Preferences do not count.
pub evaluate-Permits :
    (r : Requirements) (p : MemoryPath)
    → HasWords r
    → PathHasWords p
    → validate (some r) ≡ ok
    → validate_path (some p) ≡ ok
    → ((evaluate (some r) (some p) true).0 ≡ ok) ↔ Permits r p
evaluate-Permits r p wr wp vr vp = rw (evaluate_lem r p vr vp) (verdict-Permits r p wr wp)

pub path_facts :
    (p : MemoryPath)
    → PathHasWords p
    → validate_path (some p) ≡ ok
    → (p.resource_type ≢ 0)
      × Within p.resource_type resource_all
      × Within p.operations operations_all
unfolding validate_path
path_facts p w e =
    let (typed, kind, operations) = tests e in
    (
      typed,
      (without-zero p.resource_type resource_all w.kind (omega arith)).0 kind,
      (without-zero p.operations operations_all w.operations (omega arith)).0 operations,
    )
  where
    tests :
        validate_path (some p) ≡ ok
        → (p.resource_type ≢ 0)
          × (without p.resource_type resource_all ≡ 0)
          × (without p.operations operations_all ≡ 0)
    tests e = ground arith
