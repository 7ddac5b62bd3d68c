-- ===== src/Base/Bytes.antt =====
-- Little-endian integers in byte sequences: `put` and `get` of src/framelink_session.cpp and of
-- src/framelink_memory.cpp.
use Prim.Native.Nat.{ℕ, zero, suc, ◌+◌, ◌-◌, ◌*◌, ◌/◌, ◌%◌, ◌^◌, ◌<◌, ◌≤◌, bit_or, bit_or-bitwise}
use mathlib.Core.Path.{◌≡◌, refl, ap, ap₂, ◌∙◌}
use mathlib.Core.List.{List, [], ◌∷◌, ◌++◌}
use native.Mathlib.Nat.{pow-suc}
use native.Mathlib.Numerals.{towards_suc}
use native.Mathlib.Omega.{arith}
use framelink.Base.Bits.{or_step}
use framelink.Base.Lists.{All, length, length-append, take, drop, take-append-drop, length-drop}

-- `*p++ = uint8_t(v); v >>= 8;`, n times.
unfoldable pub put : ℕ → ℕ → List ℕ
put zero v = []
put (suc n) v = (v % 256) ∷ put n (v / 256)

-- `v |= uint64_t(*p++) << (8 * i)` for the n bytes from index i on, with the rest of the bytes.
get_from : ℕ → ℕ → ℕ → List ℕ → ℕ × List ℕ
get_from zero i v bs = (v, bs)
get_from (suc n) i v [] = (v, [])
get_from (suc n) i v (b ∷ bs) = get_from n (suc i) (bit_or v (b * 2 ^ (8 * i))) bs

pub get : ℕ → List ℕ → ℕ × List ℕ
get n bs = get_from n 0 0 bs

abbrev pub AreBytes : List ℕ → Type 0
AreBytes = All (λ b. b < 256)

pub length-put : (n v : ℕ) → length (put n v) ≡ n
unfolding put
length-put zero v = refl
length-put (suc n) v = ap suc (length-put n (v / 256))

pub length-put_append : (n v : ℕ) (rest : List ℕ) → length (put n v ++ rest) ≡ n + length rest
length-put_append n v rest =
    length-append (put n v) rest ∙ ap (λ (t : ℕ). t + length rest) (length-put n v)

pub put-AreBytes : (n v : ℕ) → AreBytes (put n v)
unfolding put
put-AreBytes zero v = tt
put-AreBytes (suc n) v = (omega arith, put-AreBytes n (v / 256))

-- `|` of numbers that share no digit is their sum.
pub or_shifted : (k a b : ℕ) → a < 2 ^ k → bit_or a (b * 2 ^ k) ≡ a + b * 2 ^ k
or_shifted zero a b h =
    ap (λ t. bit_or t (b * 2 ^ 0)) (omega arith) ∙ bit_or-bitwise 0 (b * 2 ^ 0) ∙ omega arith
or_shifted (suc k) a b h =
    let double : b * 2 ^ suc k ≡ 2 * (b * 2 ^ k) =
      ap (λ (t : ℕ). b * t) (pow-suc 2 k) ∙ omega arith in
    let halved : bit_or (a / 2) (b * 2 ^ suc k / 2) ≡ a / 2 + b * 2 ^ k =
      ap (bit_or (a / 2)) (omega (arith, double))
      ∙ or_shifted k (a / 2) b (omega (arith, pow-suc 2 k)) in
    omega (arith, or_step a (b * 2 ^ suc k), halved, double)

-- The place of byte i + 1.
place : (i : ℕ) → 2 ^ (8 * suc i) ≡ 256 * 2 ^ (8 * i)
place i = ap (λ (t : ℕ). 2 ^ t) (omega arith) ∙ eight (8 * i)
  where
    eight : (s : ℕ) → 2 ^ (s + 8) ≡ 256 * 2 ^ s
    eight s = simp towards_suc (omega arith)

get_from-put :
    (n i v w : ℕ) (rest : List ℕ)
    → v < 2 ^ (8 * i)
    → w < 2 ^ (8 * n)
    → get_from n i v (put n w ++ rest) ≡ (v + w * 2 ^ (8 * i), rest)
unfolding get_from put
get_from-put zero i v w rest h k =
    ap (λ t. (t, rest)) (omega (arith, ap (λ (t : ℕ). t * 2 ^ (8 * i)) (w_zero w k)))
  where
    w_zero : (w : ℕ) → w < 2 ^ (8 * 0) → w ≡ 0
    w_zero w k = omega arith
get_from-put (suc n) i v w rest h k =
    get_from-put n (suc i) (bit_or v (w % 256 * 2 ^ (8 * i))) (w / 256) rest (below v w h)
      (omega (arith, place n))
    ∙ ap (λ t. (t, rest)) (total v w h)
  where
    joined :
        (v w : ℕ) → v < 2 ^ (8 * i) → bit_or v (w % 256 * 2 ^ (8 * i)) ≡ v + w % 256 * 2 ^ (8 * i)
    joined v w h = or_shifted (8 * i) v (w % 256) h

    below : (v w : ℕ) → v < 2 ^ (8 * i) → bit_or v (w % 256 * 2 ^ (8 * i)) < 2 ^ (8 * suc i)
    below v w h = grind (arith, joined v w h, place i)

    total :
        (v w : ℕ)
        → v < 2 ^ (8 * i)
        → bit_or v (w % 256 * 2 ^ (8 * i)) + w / 256 * 2 ^ (8 * suc i) ≡ v + w * 2 ^ (8 * i)
    total v w h = omega (
      arith,
      joined v w h,
      ap (λ (t : ℕ). w / 256 * t) (place i),
      ap (λ (t : ℕ). t * 2 ^ (8 * i)) (split w),
    )
      where
        split : (w : ℕ) → w ≡ w % 256 + w / 256 * 256
        split w = omega arith

-- What was put is read back, and what follows it is left.
pub get-put : (n w : ℕ) (rest : List ℕ) → w < 2 ^ (8 * n) → get n (put n w ++ rest) ≡ (w, rest)
unfolding get
get-put n w rest h = get_from-put n 0 0 w rest (omega arith) h ∙ ap (λ t. (t, rest)) (omega arith)

-- The number that n bytes spell.
abbrev spelled : ℕ → List ℕ → ℕ
spelled zero bs = 0
spelled (suc n) [] = 0
spelled (suc n) (b ∷ bs) = b + 256 * spelled n bs

get_from-spelled :
    (n i v : ℕ) (bs : List ℕ)
    → v < 2 ^ (8 * i)
    → AreBytes bs
    → get_from n i v bs ≡ (v + spelled n bs * 2 ^ (8 * i), drop n bs)
unfolding get_from
get_from-spelled zero i v bs h bytes = ap (λ t. (t, bs)) (omega arith)
get_from-spelled (suc n) i v [] h bytes = ap (λ t. (t, [])) (omega arith)
get_from-spelled (suc n) i v (b ∷ bs) h bytes =
    get_from-spelled n (suc i) (bit_or v (b * 2 ^ (8 * i))) bs below bytes.1
    ∙ ap (λ t. (t, drop n bs)) total
  where
    joined : bit_or v (b * 2 ^ (8 * i)) ≡ v + b * 2 ^ (8 * i)
    joined = or_shifted (8 * i) v b h

    below : bit_or v (b * 2 ^ (8 * i)) < 2 ^ (8 * suc i)
    below = grind (arith, joined, place i)

    total :
        bit_or v (b * 2 ^ (8 * i)) + spelled n bs * 2 ^ (8 * suc i)
        ≡ v + (b + 256 * spelled n bs) * 2 ^ (8 * i)
    total = omega (arith, joined, ap (λ (t : ℕ). spelled n bs * t) (place i))

spelled-lt : (n : ℕ) (bs : List ℕ) → AreBytes bs → spelled n bs < 2 ^ (8 * n)
spelled-lt zero bs h = omega arith
spelled-lt (suc n) [] h = omega (arith, place n, spelled-lt n [] h)
spelled-lt (suc n) (b ∷ bs) h = omega (arith, place n, spelled-lt n bs h.1)

put-spelled : (n : ℕ) (bs : List ℕ) → AreBytes bs → n ≤ length bs → put n (spelled n bs) ≡ take n bs
unfolding put
put-spelled zero bs h l = refl
put-spelled (suc n) [] h l = absurd (omega arith)
put-spelled (suc n) (b ∷ bs) h l =
    ap₂ ◌∷◌ (omega arith)
      (ap (put n) (rest b (spelled n bs) h.0) ∙ put-spelled n bs h.1 (omega arith))
  where
    rest : (b s : ℕ) → b < 256 → (b + 256 * s) / 256 ≡ s
    rest b s h = omega arith

drop-AreBytes : (n : ℕ) (bs : List ℕ) → AreBytes bs → AreBytes (drop n bs)
drop-AreBytes zero bs h = h
drop-AreBytes (suc n) [] h = h
drop-AreBytes (suc n) (b ∷ bs) h = drop-AreBytes n bs h.1

-- What `get` reads fits n bytes, and to put it again spells the bytes that it came from.
module _ (n : ℕ) (bs : List ℕ) (bytes : AreBytes bs) where
  get_lem : get n bs ≡ (spelled n bs, drop n bs)
  unfolding get
  get_lem = get_from-spelled n 0 0 bs (omega arith) bytes ∙ ap (λ t. (t, drop n bs)) (omega arith)

  pub get-lt : (get n bs).0 < 2 ^ (8 * n)
  get-lt = rw get_lem (spelled-lt n bs bytes)

  pub get-AreBytes : AreBytes (get n bs).1
  get-AreBytes = rw get_lem (drop-AreBytes n bs bytes)

  pub length-get : length (get n bs).1 ≡ length bs - n
  length-get = rw get_lem (length-drop n bs)

  pub put-get : n ≤ length bs → put n (get n bs).0 ++ (get n bs).1 ≡ bs
  put-get h =
      rw get_lem (ap (λ t. t ++ drop n bs) (put-spelled n bs bytes h) ∙ take-append-drop n bs)
