-- ===== src/Prelude/Bits.antt =====
-- Single bits of `bit_or` and `bit_and`, for the registers that the driver reads and writes.
use Prim.Native.Nat.{
  ℕ, zero, suc, ◌+◌, ◌-◌, ◌*◌, ◌/◌, ◌%◌, ◌≤◌, ◌<◌, min, max, bit_and, bit_or, digits,
  bit_and-bitwise, bit_or-bitwise, bit_xor, bit_xor-bitwise, differ,
}
use mathlib.Core.Path.{◌≡◌, refl, ◌∙◌, ap}
use mathlib.Core.Bool.{Bool, true, false}
use native.Mathlib.Omega.{arith}
use v4l2_tuto.Prelude.Tests.{◌==◌, if◌then◌else◌, ==_iff}

-- Bit `k` of a word, as 0 or 1.
unfoldable pub bit : ℕ → ℕ → ℕ
bit zero w = w % 2
bit (suc k) w = bit k (w / 2)

pub bit-le_one : (k w : ℕ) → bit k w ≤ 1
unfolding bit
bit-le_one zero w = omega arith
bit-le_one (suc k) w = bit-le_one k (w / 2)

bit-zero : (k : ℕ) → bit k 0 ≡ 0
unfolding bit
bit-zero zero = refl
bit-zero (suc k) = bit-zero k

-- Operations that work on each bit alone: `op` on two bits, and `rest` for a first word that has run out.
module _ (rest : ℕ → ℕ) (op : ℕ → ℕ → ℕ) (op_bit : (x y : ℕ) → x ≤ 1 → y ≤ 1 → op x y ≤ 1)
    (bit_rest : (k b : ℕ) → bit k (rest b) ≡ op 0 (bit k b)) where
  digits_lowest : (d x y : ℕ) → x ≤ 1 → y ≤ 1 → (d * 2 + op x y) % 2 ≡ op x y
  digits_lowest d x y hx hy = omega (arith, op_bit x y hx hy)

  digits_higher : (d x y : ℕ) → x ≤ 1 → y ≤ 1 → (d * 2 + op x y) / 2 ≡ d
  digits_higher d x y hx hy = omega (arith, op_bit x y hx hy)

  exhausted : (k b : ℕ) → bit k (rest b) ≡ op (bit k 0) (bit k b)
  exhausted k b = rw (bit-zero k) (bit_rest k b)

  bit-digits :
      (fuel k a b : ℕ) → a ≤ fuel → bit k (digits rest op fuel a b) ≡ op (bit k a) (bit k b)
  unfolding bit
  bit-digits zero k zero b le = exhausted k b
  bit-digits zero k (suc a) b le = absurd (omega arith)
  bit-digits (suc fuel) k zero b le = exhausted k b
  bit-digits (suc fuel) zero (suc a) b le = digits_lowest _ _ _ (omega arith) (omega arith)
  bit-digits (suc fuel) (suc k) (suc a) b le =
      ap (bit k) (
        digits_higher (digits rest op fuel (suc a / 2) (b / 2)) (suc a % 2) (b % 2) (omega arith)
          (omega arith))
      ∙ bit-digits fuel k (suc a / 2) (b / 2) (omega arith)

pub bit-bit_and : (k a b : ℕ) → bit k (bit_and a b) ≡ min (bit k a) (bit k b)
bit-bit_and k a b =
    ap (bit k) (bit_and-bitwise a b)
    ∙ bit-digits (λ y. 0) min (λ x y hx hy. omega arith) (λ i y. omega (arith, bit-zero i)) a k a b
        (omega arith)

pub bit-bit_or : (k a b : ℕ) → bit k (bit_or a b) ≡ max (bit k a) (bit k b)
bit-bit_or k a b =
    ap (bit k) (bit_or-bitwise a b)
    ∙ bit-digits (λ y. y) max (λ x y hx hy. omega arith) (λ i y. omega arith) a k a b (omega arith)

differ-le_one : (x y : ℕ) → x ≤ 1 → y ≤ 1 → differ x y ≤ 1
differ-le_one zero y hx hy = hy
differ-le_one (suc x) zero hx hy = hx
differ-le_one (suc zero) (suc zero) hx hy = omega arith
differ-le_one (suc zero) (suc (suc y)) hx hy = absurd (omega arith)
differ-le_one (suc (suc x)) (suc y) hx hy = absurd (omega arith)

pub bit-bit_xor : (k a b : ℕ) → bit k (bit_xor a b) ≡ differ (bit k a) (bit k b)
bit-bit_xor k a b =
    ap (bit k) (bit_xor-bitwise a b)
    ∙ bit-digits (λ y. y) differ differ-le_one (λ i y. refl) a k a b (omega arith)

-- A mask of one bit flips it.
pub differ-flip : (x y : ℕ) → x ≤ 1 → y ≤ 1 → differ x y ≡ (if y == 0 then x else 1 - x)
differ-flip zero zero hx hy = refl
differ-flip (suc x) zero hx hy = refl
differ-flip zero (suc zero) hx hy = refl
differ-flip zero (suc (suc y)) hx hy = absurd (omega arith)
differ-flip (suc zero) (suc zero) hx hy = refl
differ-flip (suc zero) (suc (suc y)) hx hy = absurd (omega arith)
differ-flip (suc (suc x)) (suc y) hx hy = absurd (omega arith)

-- The bits of a mask, as a table that is computed.
bits_are : (ℕ → ℕ) → ℕ → ℕ → Bool
bits_are f w zero = true
bits_are f w (suc n) = if bit n w == f n then bits_are f w n else false

bits_are_at : (f : ℕ → ℕ) (w n k : ℕ) → k < n → bits_are f w n ≡ true → bit k w ≡ f k
unfolding bits_are
bits_are_at f w zero k lt table = absurd (omega arith)
bits_are_at f w (suc n) k lt table =
    ground (arith, bits_are_at f w n k, ==_iff (bit n w) (f n), ap (λ i. bit i w), ap f)

pub bit-mask_0 : (k : ℕ) → k < 32 → bit k 0xffff_fffe ≡ (if k == 0 then 0 else 1)
unfolding bits_are bit
bit-mask_0 k h = bits_are_at (λ i. if i == 0 then 0 else 1) 0xffff_fffe 32 k h refl

pub bit-mask_4 : (k : ℕ) → k < 32 → bit k 0xffff_ffef ≡ (if k == 4 then 0 else 1)
unfolding bits_are bit
bit-mask_4 k h = bits_are_at (λ i. if i == 4 then 0 else 1) 0xffff_ffef 32 k h refl

pub bit-single_0 : (k : ℕ) → k < 32 → bit k 1 ≡ (if k == 0 then 1 else 0)
unfolding bits_are bit
bit-single_0 k h = bits_are_at (λ i. if i == 0 then 1 else 0) 1 32 k h refl

pub bit-single_4 : (k : ℕ) → k < 32 → bit k 16 ≡ (if k == 4 then 1 else 0)
unfolding bits_are bit
bit-single_4 k h = bits_are_at (λ i. if i == 4 then 1 else 0) 16 32 k h refl

pub bit-single_20 : (k : ℕ) → k < 32 → bit k 0x100000 ≡ (if k == 20 then 1 else 0)
unfolding bits_are bit
bit-single_20 k h = bits_are_at (λ i. if i == 20 then 1 else 0) 0x100000 32 k h refl

pub bit-three :
    (k : ℕ)
    → k < 32
    → bit k 0x4110 ≡ (if k == 4 then 1 else if k == 8 then 1 else if k == 14 then 1 else 0)
unfolding bits_are bit
bit-three k h =
    bits_are_at (λ i. if i == 4 then 1 else if i == 8 then 1 else if i == 14 then 1 else 0) 0x4110
      32 k h refl

-- A mask of two ones is a remainder.
masked_0 : (fuel a : ℕ) → digits (λ y. 0) min fuel a 0 ≡ 0
masked_0 zero a = refl
masked_0 (suc fuel) zero = refl
masked_0 (suc fuel) (suc a) = omega (arith, masked_0 fuel (suc a / 2))

masked_1 : (fuel a : ℕ) → a ≤ fuel → digits (λ y. 0) min fuel a 1 ≡ a % 2
masked_1 zero a h = omega arith
masked_1 (suc fuel) zero h = refl
masked_1 (suc fuel) (suc a) h = omega (arith, masked_0 fuel (suc a / 2))

masked_3 : (fuel a : ℕ) → a ≤ fuel → digits (λ y. 0) min fuel a 3 ≡ a % 4
masked_3 zero a h = omega arith
masked_3 (suc fuel) zero h = refl
masked_3 (suc fuel) (suc a) h = omega (arith, masked_1 fuel (suc a / 2) (omega arith))

pub bit_and_three : (a : ℕ) → bit_and a 3 ≡ a % 4
bit_and_three a = bit_and-bitwise a 3 ∙ masked_3 a a (omega arith)
