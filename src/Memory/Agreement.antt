-- ===== src/Memory/Agreement.antt =====
-- What flMemoryRequirementsCombine and flMemoryEvaluateBoundary of src/framelink_memory.cpp agree on
-- for a list of endpoints.
use framelink.Base.{
  ℕ, ◌≤◌, ◌≡◌, ◌≢◌, ◌↔◌, refl, sym, subst, true, Option, none, some, List, [], ◌∷◌, arith,
  if◌then◌else◌, All, bit_and, Bool-cases, inl, inr, length,
}
use framelink.Base.Masks.{
  Within, Within-or, Within-and, Within-refl, Within-trans, Within-zero, or-IsWord, and-le,
  le_of_Within,
}
use framelink.Memory.{
  MemoryResult, ok, invalid, version_mismatch, incompatible, Requirements, MemoryPath, usage_all,
  resource_all, operations_all, validate, validate_path, evaluate, or_return, all_zero,
  memory_version, combine, combine_loop, combine_step, close_combine, start_combined, bad_count,
}
use framelink.Memory.Policy.{
  path_facts, HasWords, PathHasWords, Permits, validate-IsValid, validate_of_IsValid,
  evaluate-Permits,
}

-- What the running combination of the loop satisfies.
record IsCombined (c : Requirements) : Type 0 where
  words : HasWords c
  version : c.version ≡ memory_version
  required : Within c.required_usage usage_all
  preferred : Within c.preferred_usage usage_all
  types : Within c.allowed_types resource_all
  operations : Within c.allowed_operations operations_all
  reserved : all_zero c.reserved ≡ true

start-IsCombined : IsCombined start_combined
start-IsCombined = record {
  words = record {
    required = omega arith;
    preferred = omega arith;
    types = omega arith;
    operations = omega arith;
  };
  version = refl;
  required = Within-zero usage_all;
  preferred = Within-zero usage_all;
  types = Within-refl resource_all;
  operations = Within-refl operations_all;
  reserved = refl;
}

Within-and_left : (a b c : ℕ) → Within a c → Within (bit_and a b) c
Within-and_left a b c h =
    Within-trans (bit_and a b) a c ((Within-and (bit_and a b) a b).0 (Within-refl (bit_and a b))).0
      h

combine_step-IsCombined :
    (c r : Requirements)
    → HasWords r
    → validate (some r) ≡ ok
    → IsCombined c
    → IsCombined (combine_step c r)
combine_step-IsCombined c r w e k =
    let v = validate-IsValid r w e in
    record {
      words = record {
        required = or-IsWord c.required_usage r.required_usage k.words.required w.required;
        preferred = or-IsWord c.preferred_usage r.preferred_usage k.words.preferred w.preferred;
        types = omega (arith, and-le c.allowed_types r.allowed_types, k.words.types);
        operations =
            omega (arith, and-le c.allowed_operations r.allowed_operations, k.words.operations);
      };
      version = k.version;
      required = (Within-or c.required_usage r.required_usage usage_all).1 (k.required, v.required);
      preferred =
          (Within-or c.preferred_usage r.preferred_usage usage_all).1 (k.preferred, v.preferred);
      types = Within-and_left c.allowed_types r.allowed_types resource_all k.types;
      operations =
          Within-and_left c.allowed_operations r.allowed_operations operations_all k.operations;
      reserved = k.reserved;
    }

-- One more participant permits what the combination so far and the participant permit.
Permits-combine_step :
    (c r : Requirements) (p : MemoryPath)
    → Permits (combine_step c r) p ↔ (Permits c p × Permits r p)
Permits-combine_step c r p =
    let usage = Within-or c.required_usage r.required_usage p.supported_usage in
    let kind = Within-and p.resource_type c.allowed_types r.allowed_types in
    let operations = Within-and p.operations c.allowed_operations r.allowed_operations in
    (
      λ h. (
        record {
          usage = (usage.0 h.usage).0;
          kind = (kind.0 h.kind).0;
          operations = (operations.0 h.operations).0;
        },
        record {
          usage = (usage.0 h.usage).1;
          kind = (kind.0 h.kind).1;
          operations = (operations.0 h.operations).1;
        },
      ),
      λ h. record {
        usage = usage.1 (h.0.usage, h.1.usage);
        kind = kind.1 (h.0.kind, h.1.kind);
        operations = operations.1 (h.0.operations, h.1.operations);
      },
    )

-- Every endpoint permits the path.
abbrev pub AllPermit : List Requirements → MemoryPath → Type 0
AllPermit rs p = All (λ r. Permits r p) rs

or_return_ok :
    (a : MemoryResult) (b : MemoryResult × Option Requirements) (c : Requirements)
    → or_return a b ≡ (ok, some c)
    → (a ≡ ok) × (b ≡ (ok, some c))
or_return_ok a b c h = ground arith

combine_loop-ok :
    (c d : Requirements) (rs : List Requirements)
    → All HasWords rs
    → IsCombined c
    → combine_loop c rs ≡ (ok, some d)
    → IsCombined d
      × All (λ r. validate (some r) ≡ ok) rs
      × ((p : MemoryPath) → Permits d p ↔ (Permits c p × AllPermit rs p))
unfolding combine_loop
combine_loop-ok c d [] w k e =
    let same : c ≡ d = cc e in
    (
      subst IsCombined same k,
      tt,
      λ p. (
        λ h. (subst (λ t. Permits t p) (sym same) h, tt),
        λ h. subst (λ t. Permits t p) same h.0,
      ),
    )
combine_loop-ok c d (r ∷ rs) w k e =
    let (valid, rest) = or_return_ok (validate (some r)) (combine_loop (combine_step c r) rs) d e in
    let (done, all_valid, permits) =
      combine_loop-ok (combine_step c r) d rs w.1 (combine_step-IsCombined c r w.0 valid k) rest in
    (
      done,
      (valid, all_valid),
      λ p.
          let step = Permits-combine_step c r p in
          (
            λ h.
                let both = (permits p).0 h in
                let apart = step.0 both.0 in (apart.0, (apart.1, both.1)),
            λ h. (permits p).1 (step.1 (h.0, h.1.0), h.1.1),
          ),
    )

Permits-start :
    (p : MemoryPath)
    → Within p.resource_type resource_all
    → Within p.operations operations_all
    → Permits start_combined p
Permits-start p kind operations = record {
  usage = Within-zero p.supported_usage;
  kind = kind;
  operations = operations;
}

close_combine_ok :
    (o : MemoryResult × Option Requirements) (c : Requirements)
    → close_combine o ≡ (ok, some c)
    → (o ≡ (ok, some c)) × (c.allowed_types ≢ 0)
close_combine_ok (ok, some d) c h = ground arith
close_combine_ok (ok, none) c h = cc
close_combine_ok (invalid, o) c h = cc
close_combine_ok (r, o) c h = cc

combine_parts :
    (rs : List Requirements) (c : Requirements)
    → combine (some rs) true ≡ (ok, some c)
    → (combine_loop start_combined rs ≡ (ok, some c)) × (c.allowed_types ≢ 0)
unfolding combine
combine_parts rs c e = elim (Bool-cases (bad_count (length rs))) [
  | inl bad ↦ absurd (
      refused (
        subst
          (λ b.
            (if b then (invalid, none) else close_combine (combine_loop start_combined rs))
            ≡ (ok, some c))
          bad e))
  | inr good ↦ close_combine_ok (combine_loop start_combined rs) c (
      subst
        (λ b.
          (if b then (invalid, none) else close_combine (combine_loop start_combined rs))
          ≡ (ok, some c))
        good e)
]
  where
    refused : ◌≡◌ {A = MemoryResult × Option Requirements} (invalid, none) (ok, some c) → ⊥
    refused h = cc h

permits_iff :
    (rs : List Requirements) (p : MemoryPath)
    → All HasWords rs
    → PathHasWords p
    → validate_path (some p) ≡ ok
    → All (λ r. validate (some r) ≡ ok) rs
    → All (λ r. (evaluate (some r) (some p) true).0 ≡ ok) rs ↔ AllPermit rs p
permits_iff [] p w wp vp v = ((λ _. tt), λ _. tt)
permits_iff (r ∷ rs) p w wp vp v =
    let one = evaluate-Permits r p w.0 wp v.0 vp in
    let rest = permits_iff rs p w.1 wp vp v.1 in
    ((λ h. (one.0 h.0, rest.0 h.1)), λ h. (one.1 h.0, rest.1 h.1))

-- Where requirements with words of 32 bits combine, the combination is itself valid, and it
-- accepts a valid path exactly when each of the requirements accepts it.
pub combine-evaluate :
    (rs : List Requirements) (c : Requirements) (p : MemoryPath)
    → All HasWords rs
    → PathHasWords p
    → combine (some rs) true ≡ (ok, some c)
    → validate_path (some p) ≡ ok
    → (validate (some c) ≡ ok)
      × (((evaluate (some c) (some p) true).0 ≡ ok)
          ↔ All (λ r. (evaluate (some r) (some p) true).0 ≡ ok) rs)
combine-evaluate rs c p w wp e vp =
    let (loop, typed) = combine_parts rs c e in
    let (k, valid, permits) = combine_loop-ok start_combined c rs w start-IsCombined loop in
    let (nonzero, kind, operations) = path_facts p wp vp in
    let vc = validate_of_IsValid c k.words (record {
      version = k.version;
      required = k.required;
      preferred = k.preferred;
      some_type = typed;
      types = k.types;
      operations = k.operations;
      reserved = k.reserved;
    }) in
    let one = evaluate-Permits c p k.words wp vc vp in
    let rest = permits_iff rs p w wp vp valid in
    (
      vc,
      (
        (λ h. rest.1 ((permits p).0 (one.0 h)).1),
        λ h. one.1 ((permits p).1 (Permits-start p kind operations, rest.0 h)),
      ),
    )

close_combine_incompatible :
    (o : MemoryResult × Option Requirements) (x : Option Requirements)
    → o.0 ≢ incompatible
    → close_combine o ≡ (incompatible, x)
    → (c : Requirements) × (o ≡ (ok, some c)) × (c.allowed_types ≡ 0)
close_combine_incompatible (ok, some d) x ne h = (d, refl, ground arith)
close_combine_incompatible (ok, none) x ne h = absurd (cc h)
close_combine_incompatible (invalid, o) x ne h = absurd (cc h)
close_combine_incompatible (version_mismatch, o) x ne h = absurd (cc h)
close_combine_incompatible (incompatible, o) x ne h = absurd (ne refl)

combine_loop-ne-incompatible :
    (c : Requirements) (rs : List Requirements) → (combine_loop c rs).0 ≢ incompatible
unfolding combine_loop validate
combine_loop-ne-incompatible c [] = λ e. cc e
combine_loop-ne-incompatible c (r ∷ rs) =
    ground (arith, combine_loop-ne-incompatible (combine_step c r) rs)

incompatible_parts :
    (rs : List Requirements) (x : Option Requirements)
    → combine (some rs) true ≡ (incompatible, x)
    → close_combine (combine_loop start_combined rs) ≡ (incompatible, x)
unfolding combine
incompatible_parts rs x e = elim (Bool-cases (bad_count (length rs))) [
  | inl bad ↦ absurd (
      refused (
        subst
          (λ b.
            (if b then (invalid, none) else close_combine (combine_loop start_combined rs))
            ≡ (incompatible, x))
          bad e))
  | inr good ↦
      subst
        (λ b.
          (if b then (invalid, none) else close_combine (combine_loop start_combined rs))
          ≡ (incompatible, x))
        good e
]
  where
    refused : ◌≡◌ {A = MemoryResult × Option Requirements} (invalid, none) (incompatible, x) → ⊥
    refused h = cc h

-- Where the combination of requirements with words of 32 bits is refused as incompatible, no valid
-- path is accepted by all of them.
pub combine-incompatible :
    (rs : List Requirements) (x : Option Requirements) (p : MemoryPath)
    → All HasWords rs
    → PathHasWords p
    → combine (some rs) true ≡ (incompatible, x)
    → validate_path (some p) ≡ ok
    → ¬ All (λ r. (evaluate (some r) (some p) true).0 ≡ ok) rs
combine-incompatible rs x p w wp e vp all_ok =
    let (c, loop, no_type) =
      close_combine_incompatible (combine_loop start_combined rs) x
        (combine_loop-ne-incompatible start_combined rs) (incompatible_parts rs x e) in
    let (k, valid, permits) = combine_loop-ok start_combined c rs w start-IsCombined loop in
    let (nonzero, kind, operations) = path_facts p wp vp in
    let h =
      (permits p).1 (Permits-start p kind operations, (permits_iff rs p w wp vp valid).0 all_ok) in
    nonzero (zero_of (le_of_Within p.resource_type c.allowed_types h.kind) no_type)
  where
    zero_of : {a b : ℕ} → a ≤ b → b ≡ 0 → a ≡ 0
    zero_of l z = omega arith
