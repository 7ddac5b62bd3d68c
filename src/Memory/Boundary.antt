-- ===== src/Memory/Boundary.antt =====
-- What flMemoryEvaluateBoundary of src/framelink_memory.cpp decides over all endpoints.
use framelink.Base.{
  ℕ, ◌≡◌, ◌↔◌, refl, sym, subst, Bool, true, false, ◌&&◌, Option, none, some, List, [], ◌∷◌, ◌==◌,
  ==_iff, arith, if◌then◌else◌, All, bit_or, Bool-cases, inl, inr, length,
}
use framelink.Base.Masks.{IsWord, without-zero, Within, Within-or, Within-zero, or-IsWord}
use framelink.Memory.{
  MemoryResult, ok, invalid, version_mismatch, incompatible, MemoryPath, Decision, End,
  operations_all, validate, validate_path, evaluate, bad_count, gather, judge, with_operations,
  evaluate_boundary, close_boundary, kind_of, or_stop, is_ok,
}
use framelink.Memory.Policy.{path_facts, HasWords, PathHasWords, Permits, evaluate-Permits}

abbrev pub EndHasWords : End → Type 0
EndHasWords e = HasWords e.requirements × PathHasWords e.path

-- A valid endpoint of the resource type `kind`.
abbrev pub Fits : ℕ → End → Type 0
Fits kind e =
    (validate (some e.requirements) ≡ ok)
    × (validate_path (some e.path) ≡ ok)
    × (e.path.resource_type ≡ kind)

-- The endpoint has its required usages, allows the resource type, and allows the operations.
abbrev pub Accepts : ℕ → End → Type 0
Accepts operations e = Permits e.requirements (with_operations operations e.path)

or_stop_ok :
    (a : MemoryResult) (b : MemoryResult × ℕ) (n : ℕ)
    → or_stop a b ≡ (ok, n)
    → (a ≡ ok) × (b ≡ (ok, n))
or_stop_ok a b n h = ground arith

same_kind :
    (k kind : ℕ) (rest : MemoryResult × ℕ) (n : ℕ)
    → (if k == kind then rest else (invalid, 0)) ≡ (ok, n)
    → (k ≡ kind) × (rest ≡ (ok, n))
same_kind k kind rest n h = ground arith

-- The union that the first loop collects: it is within a set exactly when all operations are.
gather-ok :
    (kind operations : ℕ) (es : List End) (n : ℕ)
    → All EndHasWords es
    → IsWord operations
    → gather kind operations es ≡ (ok, n)
    → All (Fits kind) es
      × IsWord n
      × ((a : ℕ) → Within n a ↔ (Within operations a × All (λ e. Within e.path.operations a) es))
unfolding gather
gather-ok kind operations [] n w wo h =
    let same : operations ≡ n = cc h in
    (
      tt,
      subst IsWord same wo,
      λ a. (
        (λ k. (subst (λ t. Within t a) (sym same) k, tt)),
        λ k. subst (λ t. Within t a) same k.0,
      ),
    )
gather-ok kind operations (e ∷ es) n w wo h =
    let joined = bit_or operations e.path.operations in
    let (valid, h1) = or_stop_ok (validate (some e.requirements)) _ n h in
    let (valid_path, h2) = or_stop_ok (validate_path (some e.path)) _ n h1 in
    let (same, h3) = same_kind e.path.resource_type kind (gather kind joined es) n h2 in
    let (fits, word, within) =
      gather-ok kind joined es n w.1 (or-IsWord operations e.path.operations wo w.0.1.operations)
        h3 in
    (
      ((valid, valid_path, same), fits),
      word,
      λ a.
          let split = Within-or operations e.path.operations a in
          (
            (λ k.
                let both = (within a).0 k in
                let apart = split.0 both.0 in (apart.0, (apart.1, both.1))),
            λ k. (within a).1 (split.1 (k.0, k.1.0), k.1.1),
          ),
    )

with_operations-valid :
    (p : MemoryPath) (n : ℕ)
    → PathHasWords p
    → IsWord n
    → Within n operations_all
    → validate_path (some p) ≡ ok
    → validate_path (some (with_operations n p)) ≡ ok
unfolding validate_path
with_operations-valid p n w wn within e =
    ground (arith, (without-zero n operations_all wn (omega arith)).1 within)

end_Accepts :
    (e : End) (n kind : ℕ)
    → EndHasWords e
    → IsWord n
    → Within n operations_all
    → Fits kind e
    → (is_ok (evaluate (some e.requirements) (some (with_operations n e.path)) true).0 ≡ true)
      ↔ Accepts n e
end_Accepts e n kind w wn within f =
    let p = with_operations n e.path in
    let wp : PathHasWords p = record {
      kind = w.1.kind;
      supported = w.1.supported;
      operations = wn;
    } in
    let one =
      evaluate-Permits e.requirements p w.0 wp f.0
        (with_operations-valid e.path n w.1 wn within f.1) in
    ((λ h. one.0 (ok_of h)), λ h. of_ok (one.1 h))
  where
    ok_of : {r : MemoryResult} → is_ok r ≡ true → r ≡ ok
    ok_of h = ground arith

    of_ok : {r : MemoryResult} → r ≡ ok → is_ok r ≡ true
    of_ok h = ground arith

judge-Accepts :
    (n kind : ℕ) (es : List End)
    → All EndHasWords es
    → IsWord n
    → Within n operations_all
    → All (Fits kind) es
    → ((judge n es).0 ≡ true) ↔ All (Accepts n) es
unfolding judge
judge-Accepts n kind [] w wn within f = ((λ _. tt), λ _. refl)
judge-Accepts n kind (e ∷ es) w wn within f =
    let one = end_Accepts e n kind w.0 wn within f.0 in
    let rest = judge-Accepts n kind es w.1 wn within f.1 in
    (
      (λ h. let both = and_true _ _ h in (one.0 both.0, rest.0 both.1)),
      λ h. and_of _ _ (one.1 h.0) (rest.1 h.1),
    )
  where
    and_true : (a b : Bool) → (a && b) ≡ true → (a ≡ true) × (b ≡ true)
    and_true a b h = ground arith

    and_of : (a b : Bool) → a ≡ true → b ≡ true → (a && b) ≡ true
    and_of a b p q = ground arith

gather_total :
    (kind operations : ℕ) (es : List End)
    → All (Fits kind) es
    → (n : ℕ) × (gather kind operations es ≡ (ok, n))
unfolding gather
gather_total kind operations [] f = (operations, refl)
gather_total kind operations (e ∷ es) f =
    let (n, h) = gather_total kind (bit_or operations e.path.operations) es f.1 in
    (n, rw (f.0.0, f.0.1, (==_iff e.path.resource_type kind).1 f.0.2) h)

operations_valid :
    (kind : ℕ) (es : List End)
    → All EndHasWords es
    → All (Fits kind) es
    → All (λ e. Within e.path.operations operations_all) es
operations_valid kind [] w f = tt
operations_valid kind (e ∷ es) w f =
    ((path_facts e.path w.0.1 f.0.1).2, operations_valid kind es w.1 f.1)

-- The endpoint has its required usages, allows the resource type, and allows every operation of
-- every endpoint.
pub record Agrees (es : List End) (e : End) : Type 0 where
  pub usage : Within e.requirements.required_usage e.path.supported_usage
  pub kind : Within e.path.resource_type e.requirements.allowed_types
  pub operations : All (λ f. Within f.path.operations e.requirements.allowed_operations) es

Agrees-Accepts :
    (es fs : List End) (n : ℕ)
    → ((a : ℕ) → Within n a ↔ (Within 0 a × All (λ e. Within e.path.operations a) es))
    → All (Accepts n) fs ↔ All (Agrees es) fs
Agrees-Accepts es [] n u = ((λ _. tt), λ _. tt)
Agrees-Accepts es (e ∷ fs) n u =
    let rest = Agrees-Accepts es fs n u in
    let union = u e.requirements.allowed_operations in
    (
      λ h. (
        record { usage = h.0.usage; kind = h.0.kind; operations = (union.0 h.0.operations).1 },
        rest.0 h.1,
      ),
      λ h. (
        record {
          usage = h.0.usage;
          kind = h.0.kind;
          operations = union.1 (Within-zero e.requirements.allowed_operations, h.0.operations);
        },
        rest.1 h.1,
      ),
    )

boundary_counted :
    (es : List End)
    → bad_count (length es) ≡ false
    → evaluate_boundary (some es) true ≡ close_boundary es (gather (kind_of es) 0 es)
unfolding evaluate_boundary
boundary_counted es h = rw h refl

boundary_count :
    (es : List End) → (evaluate_boundary (some es) true).0 ≡ ok → bad_count (length es) ≡ false
unfolding evaluate_boundary
boundary_count es h = elim (Bool-cases (bad_count (length es))) [
  | inr good ↦ good
  | inl bad ↦ absurd (
      refused (
        subst
          (λ b.
            (if b then (invalid, none) else close_boundary es (gather (kind_of es) 0 es)).0 ≡ ok)
          bad h))
]
  where
    refused : invalid ≡ ok → ⊥
    refused h = cc h

close_boundary_ok :
    (es : List End) (o : MemoryResult × ℕ)
    → (close_boundary es o).0 ≡ ok
    → (n : ℕ) × (o ≡ (ok, n)) × ((judge n es).0 ≡ true)
close_boundary_ok es (ok, n) h = (n, refl, judged (judge n es).0 h)
  where
    judged : (b : Bool) → (if b then ok else incompatible) ≡ ok → b ≡ true
    judged b h = ground arith
close_boundary_ok es (invalid, n) h = absurd (cc h)
close_boundary_ok es (version_mismatch, n) h = absurd (cc h)
close_boundary_ok es (incompatible, n) h = absurd (cc h)

-- A boundary is accepted exactly when it has 1 to 16 endpoints, all of them are valid and of the
-- first one's resource type, and each of them has its required usages, allows the type, and allows
-- the operations of all of them: no endpoint's copy can bypass another one's policy.
pub boundary_Agrees :
    (es : List End)
    → All EndHasWords es
    → ((evaluate_boundary (some es) true).0 ≡ ok)
      ↔ ((bad_count (length es) ≡ false) × All (Fits (kind_of es)) es × All (Agrees es) es)
boundary_Agrees es w = (accepted, agreed)
  where
    accepted :
        (evaluate_boundary (some es) true).0 ≡ ok
        → (bad_count (length es) ≡ false) × All (Fits (kind_of es)) es × All (Agrees es) es
    accepted h =
        let good = boundary_count es h in
        let (n, gathered, judged) = close_boundary_ok es (gather (kind_of es) 0 es) (
          subst (λ (o : MemoryResult × Option (List Decision)). o.0 ≡ ok) (boundary_counted es good)
            h) in
        let (fits, word, union) = gather-ok (kind_of es) 0 es n w (omega arith) gathered in
        let within =
          (union operations_all).1
            (Within-zero operations_all, operations_valid (kind_of es) es w fits) in
        (
          good,
          fits,
          (Agrees-Accepts es es n union).0
              ((judge-Accepts n (kind_of es) es w word within fits).0 judged),
        )

    agreed :
        (bad_count (length es) ≡ false) × All (Fits (kind_of es)) es × All (Agrees es) es
        → (evaluate_boundary (some es) true).0 ≡ ok
    agreed (good, fits, agrees) =
        let (n, gathered) = gather_total (kind_of es) 0 es fits in
        let (_, word, union) = gather-ok (kind_of es) 0 es n w (omega arith) gathered in
        let within =
          (union operations_all).1
            (Within-zero operations_all, operations_valid (kind_of es) es w fits) in
        let judged =
          (judge-Accepts n (kind_of es) es w word within fits).1
            ((Agrees-Accepts es es n union).1 agrees) in
        rw (boundary_counted es good, gathered, judged) refl
