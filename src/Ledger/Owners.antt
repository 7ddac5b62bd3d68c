-- ===== src/Ledger/Owners.antt =====
-- The reader table of src/fl_read_ledger.hpp: how many tokens own a frame, and which tokens are in
-- use.
use framelink.Base.{
  ℕ, ◌+◌, ◌≤◌, ◌<◌, ◌≡◌, ◌≢◌, refl, sym, Bool, true, false, ◌&&◌, some, List, [], ◌∷◌, ◌==◌, truthy,
  if◌then◌else◌, arith, All,
}
use framelink.Ledger.{Reader, no_reader, find_in, write_at, place, same}

-- 1 for a table entry that owns frame f, and 0 for any other.
abbrev pub owns : ℕ → Reader → ℕ
owns f r = if truthy r.token && r.frame == f then 1 else 0

abbrev pub owners : ℕ → List Reader → ℕ
owners f [] = 0
owners f (r ∷ rs) = owns f r + owners f rs

-- No token of the table is n or more.
abbrev pub Below : ℕ → List Reader → Type 0
Below n = All (λ r. r.token < n)

-- The table does not have the token t in use.
abbrev Apart : ℕ → Reader → Type 0
Apart t r = truthy r.token ≡ true → r.token ≢ t

abbrev pub Lacks : ℕ → List Reader → Type 0
Lacks t = All (Apart t)

-- The tokens in use are distinct.
abbrev pub Distinct : List Reader → Type 0
Distinct [] = Unit
Distinct (r ∷ rs) = (truthy r.token ≡ true → Lacks r.token rs) × Distinct rs

pub Lacks-Below : (n : ℕ) (rs : List Reader) → Below n rs → Lacks n rs
Lacks-Below n [] b = tt
Lacks-Below n (r ∷ rs) b = ((λ _ e. omega (arith, e, b.0)), Lacks-Below n rs b.1)

pub Below-mono : (m n : ℕ) (rs : List Reader) → m ≤ n → Below m rs → Below n rs
Below-mono m n [] le b = tt
Below-mono m n (r ∷ rs) le b = (omega (arith, b.0), Below-mono m n rs le b.1)

pub find_in-token :
    (t : ℕ) (p : Bool) (rs : List Reader) (r : Reader)
    → find_in t p rs ≡ some r
    → (r.token ≡ t) × (same r.pending p ≡ true)
unfolding find_in
find_in-token t p [] r h = cc
find_in-token t p (x ∷ rs) r h = ground (arith, find_in-token t p rs r)

pub owners-find_in :
    (t : ℕ) (p : Bool) (rs : List Reader) (r : Reader)
    → t ≢ 0
    → find_in t p rs ≡ some r
    → 0 < owners r.frame rs
unfolding find_in
owners-find_in t p [] r nz h = cc
owners-find_in t p (x ∷ rs) r nz h = ground (arith, owners-find_in t p rs r)

-- Freeing the entry that was found takes one owner from its frame, and none from another.
pub owners-free :
    (t : ℕ) (p : Bool) (rs : List Reader) (r : Reader) (f : ℕ)
    → t ≢ 0
    → find_in t p rs ≡ some r
    → owners f (write_at t p no_reader rs) + (if r.frame == f then 1 else 0) ≡ owners f rs
unfolding find_in write_at
owners-free t p [] r f nz h = cc
owners-free t p (x ∷ rs) r f nz h = ground (arith, owners-free t p rs r f)

-- Marking it pending changes no count.
pub owners-mark :
    (t : ℕ) (rs : List Reader) (r : Reader) (f : ℕ)
    → find_in t false rs ≡ some r
    → owners f (write_at t false (record r { pending = true }) rs) ≡ owners f rs
unfolding find_in write_at
owners-mark t [] r f h = refl
owners-mark t (x ∷ rs) r f h = ground (arith, owners-mark t rs r f)

pub owners-place :
    (new : Reader) (rs rs' : List Reader) (f : ℕ)
    → place new rs ≡ some rs'
    → owners f rs' ≡ owns f new + owners f rs
unfolding place
owners-place new [] rs' f h = cc
owners-place new (x ∷ rs) [] f h = ground arith
owners-place new (x ∷ rs) (y ∷ rs') f h = ground (arith, owners-place new rs rs' f)

-- What the writes keep of the table.
module _ (P : Reader → Type 0) where
  pub All-write_at :
      (t : ℕ) (p : Bool) (new : Reader) (rs : List Reader)
      → P new
      → All P rs
      → All P (write_at t p new rs)
  unfolding write_at
  All-write_at t p new [] h a = tt
  All-write_at t p new (x ∷ rs) h a = ground (arith, All-write_at t p new rs h a.1)

  pub All-place :
      (new : Reader) (rs rs' : List Reader) → place new rs ≡ some rs' → P new → All P rs → All P rs'
  unfolding place
  All-place new [] rs' e h a = cc
  All-place new (x ∷ rs) [] e h a = tt
  All-place new (x ∷ rs) (y ∷ rs') e h a = ground (arith, All-place new rs rs')

  pub All-find_in :
      (t : ℕ) (p : Bool) (rs : List Reader) (r : Reader) → find_in t p rs ≡ some r → All P rs → P r
  unfolding find_in
  All-find_in t p [] r e a = cc
  All-find_in t p (x ∷ rs) r e a = ground (arith, All-find_in t p rs r)

pub Distinct-free :
    (t : ℕ) (p : Bool) (rs : List Reader) → Distinct rs → Distinct (write_at t p no_reader rs)
unfolding write_at
Distinct-free t p [] d = tt
Distinct-free t p (x ∷ rs) d = ground (
  arith,
  Distinct-free t p rs d.1,
  λ (h : truthy x.token ≡ true). All-write_at (Apart x.token) t p no_reader rs (λ e. cc) (d.0 h),
)

pub Distinct-mark :
    (t : ℕ) (rs : List Reader) (r : Reader)
    → find_in t false rs ≡ some r
    → Distinct rs
    → Distinct (write_at t false (record r { pending = true }) rs)
unfolding find_in write_at
Distinct-mark t [] r e d = tt
Distinct-mark t (x ∷ rs) r e d = ground (
  arith,
  Distinct-mark t rs r,
  λ (h : truthy x.token ≡ true) (found : find_in t false rs ≡ some r).
      All-write_at (Apart x.token) t false (record r { pending = true }) rs
        (All-find_in (Apart x.token) t false rs r found (d.0 h)) (d.0 h),
)

pub Distinct-place :
    (new : Reader) (rs rs' : List Reader)
    → place new rs ≡ some rs'
    → Lacks new.token rs
    → Distinct rs
    → Distinct rs'
unfolding place
Distinct-place new [] rs' e lacks d = cc
Distinct-place new (x ∷ rs) [] e lacks d = tt
Distinct-place new (x ∷ rs) (y ∷ rs') e lacks d = ground (
  arith,
  Distinct-place new rs rs',
  λ (h : truthy x.token ≡ true) (placed : place new rs ≡ some rs').
      All-place (Apart x.token) new rs rs' placed (λ _ q. lacks.0 h (sym q)) (d.0 h),
)
