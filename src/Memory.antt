-- ===== src/Memory.antt =====
-- The boundary memory policy, src/framelink_memory.cpp and include/framelink_memory.h. Pointers that
-- may be null are options, arrays with their count are lists. `to` says whether the out pointer is
-- given, and what is written through it is the second part of an answer: `none` leaves it as it was.
pub mod Policy
pub mod Agreement
pub mod Boundary
pub mod Wire
use framelink.Base.{
  ℕ, zero, suc, ◌+◌, ◌-◌, ◌≡◌, Bool, true, false, not, ◌&&◌, ◌||◌, Option, none, some, List, [],
  ◌∷◌, ◌++◌, ltb, ◌==◌, truthy, if◌then◌else◌, all, length, replicate, map, bit_and, bit_or,
}
use framelink.Base.Masks.{not32, without}
use framelink.Base.Bytes.{put, get}

-- flMemoryResult
pub data MemoryResult : Type 0 where
  ok invalid version_mismatch incompatible : MemoryResult

-- FL_MEMORY_VERSION
abbrev pub memory_version : ℕ
memory_version = 1

-- FL_MEMORY_USAGE_ALL
abbrev pub usage_all : ℕ
usage_all = 0x1f

-- FL_MEMORY_RESOURCE_ALL
abbrev pub resource_all : ℕ
resource_all = 0x0f

-- FL_MEMORY_OPERATIONS_ALL
abbrev pub operations_all : ℕ
operations_all = 0x0f

-- FL_MEMORY_MAX_ENDPOINTS
abbrev pub max_endpoints : ℕ
max_endpoints = 16

-- flMemoryRequirements
pub record Requirements : Type 0 where
  pub version : ℕ
  pub required_usage : ℕ
  pub preferred_usage : ℕ
  pub allowed_types : ℕ
  pub allowed_operations : ℕ
  pub reserved : List ℕ

-- flMemoryPath
pub record MemoryPath : Type 0 where
  pub version : ℕ
  pub resource_type : ℕ
  pub supported_usage : ℕ
  pub operations : ℕ
  pub reserved : List ℕ

-- flMemoryDecision
pub record Decision : Type 0 where
  pub missing_required : ℕ
  pub unmet_preferred : ℕ
  pub rejected_type : ℕ
  pub forbidden_operations : ℕ

-- zero(): every word of the array is 0.
abbrev pub all_zero : List ℕ → Bool
all_zero = all (λ v. v == 0)

abbrev pub no_requirements : Requirements
no_requirements = record {
  version = memory_version;
  required_usage = 0;
  preferred_usage = 0;
  allowed_types = resource_all;
  allowed_operations = 0;
  reserved = 0 ∷ 0 ∷ 0 ∷ [];
}

-- flMemoryRequirementsInit
unfoldable pub requirements_init : Bool → MemoryResult × Option Requirements
requirements_init to = if to then (ok, some no_requirements) else (invalid, none)

-- The fields of flMemoryRequirementsValidate, once the version is known.
unfoldable pub validate_fields : Requirements → MemoryResult
validate_fields r =
    if truthy (without (bit_or r.required_usage r.preferred_usage) usage_all)
      || r.allowed_types == 0
      || truthy (without r.allowed_types resource_all)
      || truthy (without r.allowed_operations operations_all)
      || not (all_zero r.reserved)
    then invalid
    else ok

-- flMemoryRequirementsValidate
unfoldable pub validate : Option Requirements → MemoryResult
unfolding validate_fields
validate none = invalid
validate (some r) = if r.version == memory_version then validate_fields r else version_mismatch

unfoldable pub validate_path_fields : MemoryPath → MemoryResult
validate_path_fields p =
    if p.resource_type == 0
      || truthy (bit_and p.resource_type (p.resource_type - 1))
      || truthy (without p.resource_type resource_all)
      || truthy (without p.supported_usage usage_all)
      || truthy (without p.operations operations_all)
      || not (all_zero p.reserved)
    then invalid
    else ok

-- flMemoryPathValidate
unfoldable pub validate_path : Option MemoryPath → MemoryResult
unfolding validate_path_fields
validate_path none = invalid
validate_path (some p) =
    if p.version == memory_version then validate_path_fields p else version_mismatch

-- What flMemoryEvaluate publishes of a valid pair.
abbrev pub decide : Requirements → MemoryPath → Decision
decide r p = record {
  missing_required = without r.required_usage p.supported_usage;
  unmet_preferred = without r.preferred_usage p.supported_usage;
  rejected_type = without p.resource_type r.allowed_types;
  forbidden_operations = without p.operations r.allowed_operations;
}

abbrev pub verdict : Decision → MemoryResult
verdict d =
    if truthy d.missing_required || truthy d.rejected_type || truthy d.forbidden_operations
    then incompatible
    else ok

abbrev pub evaluate_valid : Requirements → MemoryPath → MemoryResult × Option Decision
evaluate_valid r p = (verdict (decide r p), some (decide r p))

-- `if (result != FL_MEMORY_OK) return result;`
abbrev pub or_return {ℓ} :
    {A : Type ℓ} → MemoryResult → MemoryResult × Option A → MemoryResult × Option A
or_return ok next = next
or_return r next = (r, none)

-- flMemoryEvaluate
unfoldable pub evaluate :
    Option Requirements → Option MemoryPath → Bool → MemoryResult × Option Decision
evaluate r p false = (invalid, none)
evaluate none p true = (invalid, none)
evaluate (some r) none true = or_return (validate (some r)) (invalid, none)
evaluate (some r) (some p) true =
    or_return (validate (some r)) (or_return (validate_path (some p)) (evaluate_valid r p))

abbrev pub start_combined : Requirements
start_combined = record no_requirements { allowed_operations = operations_all }

abbrev pub combine_step : Requirements → Requirements → Requirements
combine_step c r = record c {
  required_usage = bit_or c.required_usage r.required_usage;
  preferred_usage = bit_or c.preferred_usage r.preferred_usage;
  allowed_types = bit_and c.allowed_types r.allowed_types;
  allowed_operations = bit_and c.allowed_operations r.allowed_operations;
}

-- The loop of flMemoryRequirementsCombine.
unfoldable pub combine_loop : Requirements → List Requirements → MemoryResult × Option Requirements
combine_loop c [] = (ok, some c)
combine_loop c (r ∷ rs) =
    let rest = combine_loop (combine_step c r) rs in or_return (validate (some r)) rest

abbrev pub close_combine : MemoryResult × Option Requirements → MemoryResult × Option Requirements
close_combine (ok, some c) = if c.allowed_types == 0 then (incompatible, none) else (ok, some c)
close_combine (r, o) = (r, none)

-- The null and count checks that the two agreement functions share.
abbrev pub bad_count : ℕ → Bool
bad_count n = n == 0 || ltb max_endpoints n

-- flMemoryRequirementsCombine
unfoldable pub combine : Option (List Requirements) → Bool → MemoryResult × Option Requirements
combine none to = (invalid, none)
combine (some rs) to =
    if not to || bad_count (length rs)
    then (invalid, none)
    else close_combine (combine_loop start_combined rs)

-- One endpoint of a boundary: entry i of both arrays.
pub record End : Type 0 where
  pub requirements : Requirements
  pub path : MemoryPath

abbrev pub or_stop : MemoryResult → MemoryResult × ℕ → MemoryResult × ℕ
or_stop ok next = next
or_stop r next = (r, 0)

-- The first loop of flMemoryEvaluateBoundary: all entries are valid and of the first one's resource
-- type; it collects the union of their operations.
unfoldable pub gather : ℕ → ℕ → List End → MemoryResult × ℕ
gather kind operations [] = (ok, operations)
gather kind operations (e ∷ es) =
    let rest = gather kind (bit_or operations e.path.operations) es in
    or_stop (validate (some e.requirements)) (
      or_stop (validate_path (some e.path))
        (if e.path.resource_type == kind then rest else (invalid, 0)))

-- `auto path = paths[i]; path.operations = operations;`
abbrev pub with_operations : ℕ → MemoryPath → MemoryPath
with_operations operations p = record p { operations = operations }

abbrev pub is_ok : MemoryResult → Bool
is_ok ok = true
is_ok _ = false

abbrev pub no_decision : Decision
no_decision = record {
  missing_required = 0;
  unmet_preferred = 0;
  rejected_type = 0;
  forbidden_operations = 0;
}

abbrev pub decision_of : MemoryResult × Option Decision → Decision
decision_of (r, none) = no_decision
decision_of (r, some d) = d

-- The second loop: the decisions, and whether all were OK.
unfoldable pub judge : ℕ → List End → Bool × List Decision
judge operations [] = (true, [])
judge operations (e ∷ es) =
    let one = evaluate (some e.requirements) (some (with_operations operations e.path)) true in
    let rest = judge operations es in (is_ok one.0 && rest.0, decision_of one ∷ rest.1)

abbrev pub close_boundary : List End → MemoryResult × ℕ → MemoryResult × Option (List Decision)
close_boundary es (ok, operations) =
    ((if (judge operations es).0 then ok else incompatible), some (judge operations es).1)
close_boundary es (r, operations) = (r, none)

abbrev pub kind_of : List End → ℕ
kind_of [] = 0
kind_of (e ∷ es) = e.path.resource_type

-- flMemoryEvaluateBoundary; `none` where a pointer to the arrays is null.
unfoldable pub evaluate_boundary : Option (List End) → Bool → MemoryResult × Option (List Decision)
evaluate_boundary none to = (invalid, none)
evaluate_boundary (some es) to =
    if not to || bad_count (length es)
    then (invalid, none)
    else close_boundary es (gather (kind_of es) 0 es)

-- FL_MEMORY_REQUIREMENTS_WIRE_SIZE
abbrev pub wire_size : ℕ
wire_size = 64

-- "FMR1"
abbrev pub magic : ℕ
magic = 0x31524d46

-- The staged bytes of flMemoryRequirementsEncode: 24 are put, the rest of the array is 0.
unfoldable pub to_wire : Requirements → List ℕ
to_wire r =
    put 4 magic
    ++ (put 4 r.version
        ++ (put 4 r.required_usage
            ++ (put 4 r.preferred_usage
                ++ (put 4 r.allowed_types ++ (put 4 r.allowed_operations ++ replicate 40 0)))))

-- flMemoryRequirementsEncode, with the size of the buffer at `data` if that is given.
unfoldable pub encode : Option Requirements → Option ℕ → MemoryResult × Option (List ℕ)
encode r none = (invalid, none)
encode none (some size) = (invalid, none)
encode (some r) (some size) =
    if size == wire_size
    then or_return (validate (some r)) (ok, some (to_wire r))
    else (invalid, none)

-- The fields of flMemoryRequirementsDecode behind the version, and the bytes left.
unfoldable pub fields_of_wire : List ℕ → Requirements × List ℕ
fields_of_wire bs =
    let (required, b3) = get 4 bs in
    let (preferred, b4) = get 4 b3 in
    let (types, b5) = get 4 b4 in
    let (operations, b6) = get 4 b5 in
    (
      record {
        version = memory_version;
        required_usage = required;
        preferred_usage = preferred;
        allowed_types = types;
        allowed_operations = operations;
        reserved = 0 ∷ 0 ∷ 0 ∷ [];
      },
      b6,
    )

abbrev pub close_decode : Requirements × List ℕ → MemoryResult × Option Requirements
close_decode (r, rest) =
    if all_zero rest then or_return (validate (some r)) (ok, some r) else (invalid, none)

-- flMemoryRequirementsDecode of the bytes at `data`, whose number is the size given.
unfoldable pub decode : Option (List ℕ) → Bool → MemoryResult × Option Requirements
decode none to = (invalid, none)
decode (some bs) to =
    if not to || not (length bs == wire_size)
    then (invalid, none)
    else if not ((get 4 bs).0 == magic)
    then (invalid, none)
    else if not ((get 4 (get 4 bs).1).0 == memory_version)
    then (version_mismatch, none)
    else close_decode (fields_of_wire (get 4 (get 4 bs).1).1)
