-- ===== src/Base/Masks.antt =====
-- Sets of flags: numbers of 32 bits read as the set of their digits.
use Prim.Native.Nat.{ℕ, zero, suc, ◌-◌, ◌/◌, ◌≤◌, ◌<◌, bit_and, bit_or}
use mathlib.Core.Path.{◌≡◌, ap}
use mathlib.Core.Logic.{◌↔◌}
use native.Mathlib.Omega.{arith}
use native.Mathlib.Decide.{dec_lt}
use framelink.Base.Bits.{
  bit, bit_le, bit-zero, bit-and, bit-or, bit-complement, bit_above, eq_of_bits,
}

-- A `uint32_t`.
abbrev pub IsWord : ℕ → Type 0
IsWord n = n < 4294967296

-- ~b on `uint32_t`.
abbrev pub not32 : ℕ → ℕ
not32 b = 4294967295 - b

-- a & ~b
abbrev pub without : ℕ → ℕ → ℕ
without a b = bit_and a (not32 b)

-- Every flag of a is one of b.
abbrev pub Within : ℕ → ℕ → Type 0
Within a b = (k : ℕ) → bit a k ≤ bit b k

bit-not32 : (b k : ℕ) → IsWord b → k < 32 → bit (not32 b) k ≡ 1 - bit b k
bit-not32 b k h l = bit-complement 32 k b h l

bit_word_above : (a k : ℕ) → IsWord a → 32 ≤ k → bit a k ≡ 0
bit_word_above a k h l = bit_above 32 k a h l

module _ (a b : ℕ) (wa : IsWord a) (wb : IsWord b) where
  without_digit : (k : ℕ) → without a b ≡ 0 → bit a k ≤ bit b k
  without_digit k e = elim (dec_lt k 32) [
    | yes l ↦ omega (
      arith,
      bit-and k a (not32 b),
      bit-not32 b k wb l,
      ap (λ t. bit t k) e,
      bit-zero k,
      bit_le a k,
      bit_le b k,
    )
    | no l ↦ omega (arith, bit_word_above a k wa (omega (arith, l)))
  ]

  digit_without : ((k : ℕ) → bit a k ≤ bit b k) → (k : ℕ) → bit (without a b) k ≡ bit 0 k
  digit_without h k = elim (dec_lt k 32) [
    | yes l ↦
        omega (
          arith,
          bit-and k a (not32 b),
          bit-not32 b k wb l,
          h k,
          bit-zero k,
          bit_le a k,
          bit_le b k,
        )
    | no l ↦
        omega (arith, bit-and k a (not32 b), bit_word_above a k wa (omega (arith, l)), bit-zero k)
  ]

  -- The C test `!(a & ~b)` is inclusion.
  pub without-zero : (without a b ≡ 0) ↔ Within a b
  without-zero = ((λ e k. without_digit k e), λ h. eq_of_bits (without a b) 0 (digit_without h))

-- Unions and intersections of flags.
pub Within-or : (a b c : ℕ) → Within (bit_or a b) c ↔ (Within a c × Within b c)
Within-or a b c = (
  λ h. ((λ k. omega (arith, h k, bit-or k a b)), λ k. omega (arith, h k, bit-or k a b)),
  λ h k. omega (arith, h.0 k, h.1 k, bit-or k a b),
)

pub Within-and : (a b c : ℕ) → Within a (bit_and b c) ↔ (Within a b × Within a c)
Within-and a b c = (
  λ h. ((λ k. omega (arith, h k, bit-and k b c)), λ k. omega (arith, h k, bit-and k b c)),
  λ h k. omega (arith, h.0 k, h.1 k, bit-and k b c),
)

pub Within-refl : (a : ℕ) → Within a a
Within-refl a k = omega arith

pub Within-trans : (a b c : ℕ) → Within a b → Within b c → Within a c
Within-trans a b c h g k = omega (arith, h k, g k)

pub Within-zero : (a : ℕ) → Within 0 a
Within-zero a k = omega (arith, bit-zero k)

le_of_Within_below : (n a b : ℕ) → a ≤ n → Within a b → a ≤ b
le_of_Within_below zero a b l h = omega arith
le_of_Within_below (suc n) a b l h = elim (dec_lt 0 a) [
  | yes pos ↦
      omega (arith, h 0, le_of_Within_below n (a / 2) (b / 2) (omega arith) (λ k. h (suc k)))
  | no none_set ↦ omega arith
]

pub le_of_Within : (a b : ℕ) → Within a b → a ≤ b
le_of_Within a b h = le_of_Within_below a a b (omega arith) h

Within-full : (a : ℕ) → IsWord a → Within a 4294967295
Within-full a h k = elim (dec_lt k 32) [
  | yes l ↦ omega (arith, bit-not32 0 k (omega arith) l, bit-zero k, bit_le a k)
  | no l ↦ omega (arith, bit_word_above a k h (omega (arith, l)))
]

pub or-IsWord : (a b : ℕ) → IsWord a → IsWord b → IsWord (bit_or a b)
or-IsWord a b ha hb = omega (
  arith,
  le_of_Within (bit_or a b) 4294967295
      ((Within-or a b 4294967295).1 (Within-full a ha, Within-full b hb)),
)

pub and-le : (a b : ℕ) → bit_and a b ≤ a
and-le a b =
    le_of_Within (bit_and a b) a ((Within-and (bit_and a b) a b).0 (Within-refl (bit_and a b))).0
