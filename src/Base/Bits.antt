-- ===== src/Base/Bits.antt =====
-- The binary digits of a number, and what `&`, `|` and `~` do to them.
use Prim.Native.Nat.{
  ℕ, zero, suc, ◌+◌, ◌-◌, ◌*◌, ◌/◌, ◌%◌, ◌^◌, ◌≤◌, ◌<◌, min, max, bit_and, bit_or, bit_xor, differ,
  digits, bit_and-bitwise, bit_or-bitwise, bit_xor-bitwise,
}
use mathlib.Core.Path.{◌≡◌, refl, ap, ◌∙◌}
use native.Mathlib.Nat.{pow-suc}
use native.Mathlib.Omega.{arith}

-- Digit k of a: 0 or 1.
abbrev pub bit : ℕ → ℕ → ℕ
bit a zero = a % 2
bit a (suc k) = bit (a / 2) k

pub bit_le : (a k : ℕ) → bit a k ≤ 1
bit_le a zero = omega arith
bit_le a (suc k) = bit_le (a / 2) k

pub bit-zero : (k : ℕ) → bit 0 k ≡ 0
bit-zero zero = refl
bit-zero (suc k) = bit-zero k

-- More rounds than the number has digits change nothing.
module _ (z : ℕ → ℕ) (f : ℕ → ℕ → ℕ) where
  digits_enough : (n m a b : ℕ) → a ≤ n → a ≤ m → digits z f n a b ≡ digits z f m a b
  digits_enough zero zero a b p q = refl
  digits_enough zero (suc m) zero b p q = refl
  digits_enough zero (suc m) (suc a) b p q = absurd (omega arith)
  digits_enough (suc n) zero zero b p q = refl
  digits_enough (suc n) zero (suc a) b p q = absurd (omega arith)
  digits_enough (suc n) (suc m) zero b p q = refl
  digits_enough (suc n) (suc m) (suc a) b p q =
      let rest = digits_enough n m (suc a / 2) (b / 2) (omega arith) (omega arith) in
      ap (λ (t : ℕ). t * 2 + f (suc a % 2) (b % 2)) rest

pub and_step : (a b : ℕ) → bit_and a b ≡ bit_and (a / 2) (b / 2) * 2 + min (a % 2) (b % 2)
and_step zero b = omega (arith, bit_and-bitwise 0 b, bit_and-bitwise 0 (b / 2))
and_step (suc a) b =
    let same = digits_enough (λ t. zero) min a (suc a / 2) (suc a / 2) (b / 2) in
    omega (
      arith,
      bit_and-bitwise (suc a) b,
      bit_and-bitwise (suc a / 2) (b / 2),
      same (omega arith) (omega arith),
    )

pub or_step : (a b : ℕ) → bit_or a b ≡ bit_or (a / 2) (b / 2) * 2 + max (a % 2) (b % 2)
or_step zero b = omega (arith, bit_or-bitwise 0 b, bit_or-bitwise 0 (b / 2))
or_step (suc a) b =
    let same = digits_enough (λ t. t) max a (suc a / 2) (suc a / 2) (b / 2) in
    omega (
      arith,
      bit_or-bitwise (suc a) b,
      bit_or-bitwise (suc a / 2) (b / 2),
      same (omega arith) (omega arith),
    )

xor_step : (a b : ℕ) → bit_xor a b ≡ bit_xor (a / 2) (b / 2) * 2 + differ (a % 2) (b % 2)
xor_step zero b = omega (arith, bit_xor-bitwise 0 b, bit_xor-bitwise 0 (b / 2), differ_zero (b % 2))
  where
    differ_zero : (y : ℕ) → differ 0 y ≡ y
    differ_zero y = refl
xor_step (suc a) b =
    let same = digits_enough (λ t. t) differ a (suc a / 2) (suc a / 2) (b / 2) in
    omega (
      arith,
      bit_xor-bitwise (suc a) b,
      bit_xor-bitwise (suc a / 2) (b / 2),
      same (omega arith) (omega arith),
    )

differ_same : (x y : ℕ) → differ x y ≡ 0 → x ≡ y
differ_same zero y h = cc
differ_same (suc x) zero h = absurd (omega (arith, h))
differ_same (suc x) (suc y) h = ap suc (differ_same x y h)

differ_self : (x : ℕ) → differ x x ≡ 0
differ_self zero = refl
differ_self (suc x) = differ_self x

eq_of_xor_below : (n a b : ℕ) → a ≤ n → bit_xor a b ≡ 0 → a ≡ b
eq_of_xor_below n zero b l h = omega (arith, bit_xor-bitwise 0 b, h)
eq_of_xor_below zero (suc a) b l h = absurd (omega (arith, l))
eq_of_xor_below (suc n) (suc a) b l h = omega (
  arith,
  eq_of_xor_below n (suc a / 2) (b / 2) (omega (arith, l)) (omega (arith, xor_step (suc a) b, h)),
  differ_same (suc a % 2) (b % 2) (omega (arith, xor_step (suc a) b, h)),
)

xor_self_below : (n a : ℕ) → a ≤ n → bit_xor a a ≡ 0
xor_self_below n zero l = bit_xor-bitwise 0 0
xor_self_below zero (suc a) l = absurd (omega (arith, l))
xor_self_below (suc n) (suc a) l = omega (
  arith,
  xor_step (suc a) (suc a),
  xor_self_below n (suc a / 2) (omega (arith, l)),
  differ_self (suc a % 2),
)

pub eq_of_xor : (a b : ℕ) → bit_xor a b ≡ 0 → a ≡ b
eq_of_xor a b h = eq_of_xor_below a a b (omega arith) h

pub xor_self : (a : ℕ) → bit_xor a a ≡ 0
xor_self a = xor_self_below a a (omega arith)

pub bit-and : (k a b : ℕ) → bit (bit_and a b) k ≡ min (bit a k) (bit b k)
bit-and zero a b = omega (arith, and_step a b)
bit-and (suc k) a b = ap (λ t. bit t k) (halved a b) ∙ bit-and k (a / 2) (b / 2)
  where
    halved : (a b : ℕ) → bit_and a b / 2 ≡ bit_and (a / 2) (b / 2)
    halved a b = omega (arith, and_step a b)

pub bit-or : (k a b : ℕ) → bit (bit_or a b) k ≡ max (bit a k) (bit b k)
bit-or zero a b = omega (arith, or_step a b)
bit-or (suc k) a b = ap (λ t. bit t k) (halved a b) ∙ bit-or k (a / 2) (b / 2)
  where
    halved : (a b : ℕ) → bit_or a b / 2 ≡ bit_or (a / 2) (b / 2)
    halved a b = omega (arith, or_step a b)

-- The digits determine the number.
eq_of_bits_below : (n a b : ℕ) → a ≤ n → b ≤ n → ((k : ℕ) → bit a k ≡ bit b k) → a ≡ b
eq_of_bits_below zero a b p q h = omega arith
eq_of_bits_below (suc n) a b p q h =
    omega
      (arith, h 0, eq_of_bits_below n (a / 2) (b / 2) (omega arith) (omega arith) (λ k. h (suc k)))

pub eq_of_bits : (a b : ℕ) → ((k : ℕ) → bit a k ≡ bit b k) → a ≡ b
eq_of_bits a b h = eq_of_bits_below (a + b) a b (omega arith) (omega arith) h

-- `~b` on w bits, for a number that fits them: digit k is the other digit.
pub bit-complement : (w k b : ℕ) → b < 2 ^ w → k < w → bit (2 ^ w - 1 - b) k ≡ 1 - bit b k
bit-complement zero k b h l = elim l [ ]
bit-complement (suc w) zero b h l = omega (arith, pow-suc 2 w)
bit-complement (suc w) (suc k) b h l =
    ap (λ t. bit t k) (omega (arith, pow-suc 2 w))
    ∙ bit-complement w k (b / 2) (omega (arith, pow-suc 2 w)) (omega arith)

-- A number of w bits has no digit from w on.
pub bit_above : (w k b : ℕ) → b < 2 ^ w → w ≤ k → bit b k ≡ 0
bit_above zero k b h l = ap (λ t. bit t k) (omega arith) ∙ bit-zero k
bit_above (suc w) zero b h l = elim l [ ]
bit_above (suc w) (suc k) b h l = bit_above w k (b / 2) (omega (arith, pow-suc 2 w)) (omega arith)
