-- ===== src/References/Counts.antt =====
-- The counters of src/fl_buffer_refs.hpp agree with its table.
use framelink.Base.{
  ℕ, zero, suc, ◌+◌, ◌≤◌, ◌<◌, ◌≡◌, ◌≢◌, refl, sym, ap, ◌∙◌, true, false, ◌&&◌, some, List, [], ◌∷◌,
  leb, ◌==◌, ==_iff, min, truthy, if◌then◌else◌, replicate, length, arith, Bool-cases, Option-cases,
  inl, inr,
}
use framelink.Api.{max_pool_size, u64_max}
use framelink.References.{
  Reference, References, no_reference, no_references, max_references, add_one, sub_one,
  update_count, place_reference, find_reference, reset_reference, retain_reference,
  release_reference,
}

-- 1 for an entry in use that holds the slot.
abbrev holds : ℕ → Reference → ℕ
holds s e = if truthy e.token && e.slot == s then 1 else 0

-- The number of entries in use that hold the slot.
abbrev pub held : ℕ → List Reference → ℕ
held s [] = 0
held s (e ∷ es) = holds s e + held s es

-- The number of entries in use.
abbrev pub in_use : List Reference → ℕ
in_use [] = 0
in_use (e ∷ es) = (if truthy e.token then 1 else 0) + in_use es

held-le : (s : ℕ) (es : List Reference) → held s es ≤ in_use es
held-le s [] = omega arith
held-le s (e ∷ es) = ground (arith, held-le s es)

in_use-le : (es : List Reference) → in_use es ≤ length es
in_use-le [] = omega arith
in_use-le (e ∷ es) = ground (arith, in_use-le es)

held-place :
    (x : Reference) (es es' : List Reference) (s : ℕ)
    → place_reference x es ≡ some es'
    → held s es' ≡ holds s x + held s es
unfolding place_reference
held-place x [] es' s e = cc
held-place x (y ∷ es) [] s e = ground arith
held-place x (y ∷ es) (z ∷ es') s e = ground (arith, held-place x es es' s)

in_use-place :
    (x : Reference) (es es' : List Reference)
    → place_reference x es ≡ some es'
    → x.token ≢ 0
    → in_use es' ≡ suc (in_use es)
unfolding place_reference
in_use-place x [] es' e nz = cc
in_use-place x (y ∷ es) [] e nz = ground arith
in_use-place x (y ∷ es) (z ∷ es') e nz = ground (arith, in_use-place x es es')

length-place :
    (x : Reference) (es es' : List Reference)
    → place_reference x es ≡ some es'
    → length es' ≡ length es
unfolding place_reference
length-place x [] es' e = cc
length-place x (y ∷ es) [] e = ground arith
length-place x (y ∷ es) (z ∷ es') e = ground (arith, length-place x es es')

held-reset :
    (t s : ℕ) (es : List Reference) (e : Reference)
    → t ≢ 0
    → find_reference t es ≡ some e
    → held s es ≡ (if e.slot == s then 1 else 0) + held s (reset_reference t es)
unfolding find_reference reset_reference
held-reset t s [] e nz h = cc
held-reset t s (x ∷ es) e nz h = ground (arith, held-reset t s es e nz)

in_use-reset :
    (t : ℕ) (es : List Reference) (e : Reference)
    → t ≢ 0
    → find_reference t es ≡ some e
    → in_use es ≡ suc (in_use (reset_reference t es))
unfolding find_reference reset_reference
in_use-reset t [] e nz h = cc
in_use-reset t (x ∷ es) e nz h = ground (arith, in_use-reset t es e nz)

length-reset : (t : ℕ) (es : List Reference) → length (reset_reference t es) ≡ length es
unfolding reset_reference
length-reset t [] = refl
length-reset t (x ∷ es) = ground (arith, length-reset t es)

-- The counters are those of the table, which has its full size.
pub record Counted (r : References) : Type 0 where
  pub counted : (s : ℕ) → r.counts s ≡ held s r.entries
  pub totalled : r.total ≡ in_use r.entries
  pub sized : length r.entries ≡ max_references
  pub next_reference_pos : 0 < r.next_reference

small : (r : References) (s : ℕ) → Counted r → (r.counts s ≤ 256) × (r.total ≤ 256)
small r s c = (
  omega (arith, c.counted s, held-le s r.entries, in_use-le r.entries, c.sized),
  omega (arith, c.totalled, in_use-le r.entries, c.sized),
)

add_one_lem : (n : ℕ) → n ≤ 256 → add_one n ≡ suc n
add_one_lem n h = omega (arith, h)

sub_one_lem : (n m : ℕ) → n ≤ 256 → n ≡ suc m → sub_one n ≡ m
sub_one_lem n m h e = omega (arith, h, e)

-- One more at a slot, and one less.
update_count-add :
    (counts : ℕ → ℕ) (slot s : ℕ)
    → counts s ≤ 256
    → update_count counts slot (add_one (counts slot)) s ≡ (if slot == s then 1 else 0) + counts s
update_count-add counts slot s h = elim (Bool-cases (s == slot)) [
  | inl e ↦
      let same = ap counts ((==_iff s slot).0 e) in
      rw (e, ==_iff_sym s slot e) (ap add_one (sym same) ∙ add_one_lem (counts s) h ∙ omega arith)
  | inr e ↦ rw (e, ==_ne_sym s slot e) (omega arith)
]
  where
    ==_iff_sym : (a b : ℕ) → (a == b) ≡ true → (b == a) ≡ true
    ==_iff_sym a b h = ground arith

    ==_ne_sym : (a b : ℕ) → (a == b) ≡ false → (b == a) ≡ false
    ==_ne_sym a b h = ground arith

update_count-sub :
    (counts : ℕ → ℕ) (slot s n : ℕ)
    → counts s ≤ 256
    → counts s ≡ (if slot == s then 1 else 0) + n
    → update_count counts slot (sub_one (counts slot)) s ≡ n
update_count-sub counts slot s n h q = elim (Bool-cases (s == slot)) [
  | inl e ↦
      let same = ap counts ((==_iff s slot).0 e) in
      rw e (ap sub_one (sym same) ∙ sub_one_lem (counts s) n h (one_more e))
  | inr e ↦ rw e (none_more e)
]
  where
    one_more : (s == slot) ≡ true → counts s ≡ suc n
    one_more e = ground (arith, q)

    none_more : (s == slot) ≡ false → counts s ≡ n
    none_more e = ground (arith, q)

retain_reference-Counted :
    (r : References) (slot : ℕ) → Counted r → Counted (retain_reference r slot).0
unfolding retain_reference
retain_reference-Counted r slot c = elim (Bool-cases (leb max_pool_size slot)) [
  | inl out ↦ rw out c
  | inr inside ↦
      elim (Option-cases
        (place_reference (record { token = r.next_reference; slot = slot }) r.entries)) [
          | inl full ↦ rw (inside, full) c
          | inr (es, placed) ↦ elim (Bool-cases (r.next_reference == u64_max)) [
            | inl done ↦ rw (inside, placed, done) c
            | inr more ↦
                rw (inside, placed, more)
                  (record {
                    counted = λ s.
                        update_count-add r.counts slot s (small r s c).0
                        ∙ retained es s (
                            held-place (record { token = r.next_reference; slot = slot }) r.entries
                              es s placed);
                    totalled =
                        add_one_lem r.total (small r 0 c).1
                        ∙ ap suc c.totalled
                        ∙ sym (
                            in_use-place (record { token = r.next_reference; slot = slot })
                              r.entries es placed (λ z. omega (arith, z, c.next_reference_pos)));
                    sized =
                        length-place (record { token = r.next_reference; slot = slot }) r.entries es
                          placed
                        ∙ c.sized;
                    next_reference_pos = omega arith;
                  })
          ]
        ]
]
  where
    retained :
        (es : List Reference) (s : ℕ)
        → held s es ≡ holds s (record { token = r.next_reference; slot = slot }) + held s r.entries
        → (if slot == s then 1 else 0) + r.counts s ≡ held s es
    retained es s h = ground (arith, h, c.counted s, c.next_reference_pos)

release_reference-Counted : (r : References) (t : ℕ) → Counted r → Counted (release_reference r t).0
unfolding release_reference
release_reference-Counted r t c = elim (Bool-cases (t == 0)) [
  | inl zero_token ↦ rw zero_token c
  | inr token ↦ elim (Option-cases (find_reference t r.entries)) [
    | inl missing ↦ rw (token, missing) c
    | inr (e, found) ↦
        rw (token, found)
          (record {
            counted = λ s.
                update_count-sub r.counts e.slot s (held s (reset_reference t r.entries))
                  (small r s c).0 (c.counted s ∙ held-reset t s r.entries e (nonzero token) found);
            totalled =
                sub_one_lem r.total (in_use (reset_reference t r.entries)) (small r 0 c).1
                  (c.totalled ∙ in_use-reset t r.entries e (nonzero token) found);
            sized = length-reset t r.entries ∙ c.sized;
            next_reference_pos = c.next_reference_pos;
          })
  ]
]
  where
    nonzero : (t == 0) ≡ false → t ≢ 0
    nonzero h z = ground (arith, h, z)

-- The calls on the references of one channel. `reserves n` stands for n tokens of other channels.
pub data ReferenceCall : Type 0 where
  retains releases reserves : ℕ → ReferenceCall

unfoldable pub reference_step : References → ReferenceCall → References
reference_step r (retains slot) = (retain_reference r slot).0
reference_step r (releases t) = (release_reference r t).0
reference_step r (reserves n) = record r { next_reference = min u64_max (r.next_reference + n) }

unfoldable pub reference_run : References → List ReferenceCall → References
unfolding reference_step
reference_run r [] = r
reference_run r (c ∷ cs) = reference_run (reference_step r c) cs

reference_step-Counted :
    (r : References) (c : ReferenceCall) → Counted r → Counted (reference_step r c)
unfolding reference_step
reference_step-Counted r (retains slot) v = retain_reference-Counted r slot v
reference_step-Counted r (releases t) v = release_reference-Counted r t v
reference_step-Counted r (reserves n) v = record {
  counted = v.counted;
  totalled = v.totalled;
  sized = v.sized;
  next_reference_pos = omega (arith, v.next_reference_pos);
}

reference_run-Counted :
    (r : References) (cs : List ReferenceCall) → Counted r → Counted (reference_run r cs)
unfolding reference_run
reference_run-Counted r [] v = v
reference_run-Counted r (c ∷ cs) v =
    reference_run-Counted (reference_step r c) cs (reference_step-Counted r c v)

unheld : (n s : ℕ) → held s (replicate n no_reference) ≡ 0
unheld zero s = refl
unheld (suc n) s = omega (arith, unheld n s)

no_references-Counted : (next : ℕ) → 0 < next → Counted (no_references next)
unfolding no_references
no_references-Counted next h = record {
  counted = λ s. sym (unheld max_references s);
  totalled = refl;
  sized = refl;
  next_reference_pos = h;
}

-- After any history of retains and releases, the counter of each slot is the number of tokens that
-- hold it, the total is the number of tokens in use, and no counter has wrapped: there are at most
-- 256 tokens.
pub reference_run-counts :
    (next s : ℕ) (cs : List ReferenceCall)
    → 0 < next
    → let r = reference_run (no_references next) cs in
      (r.counts s ≡ held s r.entries) × (r.total ≡ in_use r.entries) × (r.total ≤ max_references)
reference_run-counts next s cs h =
    let c = reference_run-Counted (no_references next) cs (no_references-Counted next h) in
    (c.counted s, c.totalled, (small (reference_run (no_references next) cs) s c).1)
