-- ===== src/Base/Bits.antt =====
-- `x & mask` stays within the mask, and the test `((n - 1) & n) == 0` for a power of two.
use Prim.Native.Nat.{digits, bit_and-bitwise, min}
use coxx.Base.{ℕ, zero, suc, ◌+◌, ◌*◌, ◌/◌, ◌≤◌, ◌≡◌, refl, ◌∙◌, arith, bit_and}

-- `a & b`, digit by digit, at most `depth` of them.
abbrev masked : ℕ → ℕ → ℕ → ℕ
masked = digits (λ rest. 0) min

masked-le : (depth a b : ℕ) → masked depth a b ≤ b
masked-le zero zero mask = omega arith
masked-le zero (suc a) mask = omega arith
masked-le (suc depth) zero mask = omega arith
masked-le (suc depth) (suc a) mask = omega (arith, masked-le depth (suc a / 2) (mask / 2))

pub bit_and-le : (code mask : ℕ) → bit_and code mask ≤ mask
bit_and-le code mask = omega (arith, bit_and-bitwise code mask, masked-le code code mask)

-- A mask below a power of two has no bit in common with that power, however many bits are looked at.
pub record IsMask (mask : ℕ) : Type 0 where
  apart : (depth : ℕ) → mask ≤ depth → masked depth mask (mask + 1) ≡ 0

pub IsMask-bit_and : {mask : ℕ} → IsMask mask → bit_and mask (mask + 1) ≡ 0
IsMask-bit_and {mask} m = bit_and-bitwise mask (mask + 1) ∙ m.apart mask (omega arith)

pub zero-IsMask : IsMask 0
zero-IsMask = record { apart = none_set }
  where
    none_set : (depth : ℕ) → 0 ≤ depth → masked depth 0 1 ≡ 0
    none_set zero h = refl
    none_set (suc depth) h = refl

-- One more bit.
pub double-IsMask : (mask : ℕ) → IsMask mask → IsMask (suc (2 * mask))
double-IsMask mask m = record { apart = λ depth h. wider depth h }
  where
    wider :
        (depth : ℕ)
        → suc (2 * mask) ≤ depth
        → masked depth (suc (2 * mask)) (suc (2 * mask) + 1) ≡ 0
    wider zero h = absurd (omega arith)
    wider (suc depth) h =
        let low : suc (2 * mask) / 2 ≡ mask = omega arith in
        let high : (suc (2 * mask) + 1) / 2 ≡ mask + 1 = omega arith in
        rw (low, high, m.apart depth (omega arith)) (omega arith)
