-- ===== src/References.antt =====
-- The producer's buffer references, src/fl_buffer_refs.hpp: a table of tokens, each of which holds a
-- slot. The atomic counters are numbers of 32 bits, and a method is one step under the lock.
pub mod Counts
use framelink.Base.{
  ℕ, zero, suc, ◌+◌, ◌%◌, Bool, true, false, not, ◌&&◌, Option, none, some, List, [], ◌∷◌, ltb, leb,
  ◌==◌, truthy, if◌then◌else◌, replicate,
}
use framelink.Api.{FlResult, ok, invalid, busy, internal, max_pool_size, u64_max}

-- struct Entry: free when its token is 0.
pub record Reference : Type 0 where
  pub token : ℕ
  pub slot : ℕ

-- `next_reference` is the static counter next_, which all channels of the process share.
pub record References : Type 0 where
  pub entries : List Reference
  pub counts : ℕ → ℕ
  pub total : ℕ
  pub next_reference : ℕ

abbrev pub no_reference : Reference
no_reference = record { token = 0; slot = 0 }

-- The size of the table.
abbrev pub max_references : ℕ
max_references = 256

unfoldable pub no_references : ℕ → References
no_references next = record {
  entries = replicate max_references no_reference;
  counts = λ _. 0;
  total = 0;
  next_reference = next;
}

-- fetch_add(1) and fetch_sub(1) on a uint32_t.
abbrev pub add_one : ℕ → ℕ
add_one n = (n + 1) % 4294967296

abbrev pub sub_one : ℕ → ℕ
sub_one n = (n + 4294967295) % 4294967296

abbrev pub update_count : (ℕ → ℕ) → ℕ → ℕ → ℕ → ℕ
update_count counts slot n s = if s == slot then n else counts s

-- busy()
unfoldable pub is_busy : References → ℕ → Bool
is_busy r slot = ltb slot max_pool_size && truthy (r.counts slot)

-- empty()
abbrev pub is_empty : References → Bool
is_empty r = r.total == 0

-- A write to the first free entry, if there is one.
unfoldable pub place_reference : Reference → List Reference → Option (List Reference)
place_reference x [] = none
place_reference x (e ∷ es) =
    let rest : Option (List Reference) = elim (place_reference x es) [
      | none ↦ none
      | some es' ↦ some (e ∷ es')
    ] in
    if e.token == 0 then some (x ∷ es) else rest

-- The first entry with this token.
unfoldable pub find_reference : ℕ → List Reference → Option Reference
find_reference t [] = none
find_reference t (e ∷ es) = if e.token == t then some e else find_reference t es

-- `e={}` on the first entry with this token.
unfoldable pub reset_reference : ℕ → List Reference → List Reference
reset_reference t [] = []
reset_reference t (e ∷ es) = if e.token == t then no_reference ∷ es else e ∷ reset_reference t es

-- retain()
unfoldable pub retain_reference : References → ℕ → References × FlResult × Option ℕ
retain_reference r slot =
    if leb max_pool_size slot
    then (r, invalid, none)
    else elim (place_reference (record { token = r.next_reference; slot = slot }) r.entries) [
      | none ↦ (r, busy, none)
      | some es ↦ if r.next_reference == u64_max then (r, internal, none) else (
        record {
          entries = es;
          counts = update_count r.counts slot (add_one (r.counts slot));
          total = add_one r.total;
          next_reference = r.next_reference + 1;
        },
        ok,
        some r.next_reference,
      )
    ]

-- release()
unfoldable pub release_reference : References → ℕ → References × FlResult
release_reference r t = if t == 0 then (r, invalid) else elim (find_reference t r.entries) [
  | none ↦ (r, invalid)
  | some e ↦ (
    record r {
      entries = reset_reference t r.entries;
      counts = update_count r.counts e.slot (sub_one (r.counts e.slot));
      total = sub_one r.total;
    },
    ok,
  )
]
