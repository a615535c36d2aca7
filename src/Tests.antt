-- ===== src/Tests.antt =====
-- Fixed runs of the drivers, each property at a concrete input. Here are the kernel's `ALIGN` and
-- `get_order` as functions, with the laws that the drivers rely on.
mod Channel
mod Device
mod Transfers
mod Buffers
mod References
mod Boards
mod Requests
mod Camera
mod Pixels
mod Capture
use v4l2_tuto.Prelude.{
  ==_iff, subst, ◌==◌, ℕ, zero, suc, ◌+◌, ◌-◌, ◌*◌, ◌/◌, ◌%◌, ◌^◌, ◌≤◌, ◌<◌, ◌≡◌, leb,
  if◌then◌else◌, arith, Bool-cases, inl, inr, refl, true,
}
use native.Mathlib.Nat.{zero-add, one-le-pow, mul-mod_left, pow-suc}
use v4l2_tuto.Kernel.{Align}
use v4l2_tuto.Qdmabuf.Pages.{Paging}

abbrev align_up : ℕ → ℕ → ℕ
align_up x a = ((x + (a - 1)) / a * a) % 4294967296

pow_pos : (k : ℕ) → 0 < 2 ^ k
pow_pos k = one-le-pow k 2 (omega arith)

-- Rounding up by any positive number.
round_up : (x p : ℕ) → 0 < p → (x ≤ (x + (p - 1)) / p * p) × ((x + (p - 1)) / p * p < x + p)
round_up x p h = (omega arith, omega arith)

align_up_same :
    (x k : ℕ) → x + 2 ^ k ≤ 2 ^ 32 → align_up x (2 ^ k) ≡ (x + (2 ^ k - 1)) / 2 ^ k * 2 ^ k
align_up_same x k h = omega (arith, round_up x (2 ^ k) (pow_pos k))

align_up_ge : (x k : ℕ) → x + 2 ^ k ≤ 2 ^ 32 → x ≤ align_up x (2 ^ k)
align_up_ge x k h = omega (arith, align_up_same x k h, round_up x (2 ^ k) (pow_pos k))

align_up_lt : (x k : ℕ) → x + 2 ^ k ≤ 2 ^ 32 → align_up x (2 ^ k) < x + 2 ^ k
align_up_lt x k h = omega (arith, align_up_same x k h, round_up x (2 ^ k) (pow_pos k))

align_up_mod : (x k : ℕ) → x + 2 ^ k ≤ 2 ^ 32 → align_up x (2 ^ k) % 2 ^ k ≡ 0
align_up_mod x k h = rw (align_up_same x k h) (mul-mod_left _ _)

abbrev align_up_long : ℕ → ℕ → ℕ
align_up_long x a = ((x + (a - 1)) / a * a) % 2 ^ 64

align_up_long_same :
    (x k : ℕ) → x + 2 ^ k ≤ 2 ^ 64 → align_up_long x (2 ^ k) ≡ (x + (2 ^ k - 1)) / 2 ^ k * 2 ^ k
align_up_long_same x k h = omega (arith, round_up x (2 ^ k) (pow_pos k))

align_up_long_ge : (x k : ℕ) → x + 2 ^ k ≤ 2 ^ 64 → x ≤ align_up_long x (2 ^ k)
align_up_long_ge x k h = omega (arith, align_up_long_same x k h, round_up x (2 ^ k) (pow_pos k))

align_up_long_lt : (x k : ℕ) → x + 2 ^ k ≤ 2 ^ 64 → align_up_long x (2 ^ k) < x + 2 ^ k
align_up_long_lt x k h = omega (arith, align_up_long_same x k h, round_up x (2 ^ k) (pow_pos k))

align_up_long_mod : (x k : ℕ) → x + 2 ^ k ≤ 2 ^ 64 → align_up_long x (2 ^ k) % 2 ^ k ≡ 0
align_up_long_mod x k h = rw (align_up_long_same x k h) (mul-mod_left _ _)

instance abbrev kernel_align : Align
kernel_align = record {
  align = align_up;
  align-word = λ x a. omega arith;
  align-ge = align_up_ge;
  align-lt = align_up_lt;
  align-mod = align_up_mod;
  align_long = align_up_long;
  align_long-ge = align_up_long_ge;
  align_long-lt = align_up_long_lt;
  align_long-mod = align_up_long_mod;
}

-- The least order from `n` on, among `fuel` of them, whose block holds `size` bytes.
order_from : ℕ → ℕ → ℕ → ℕ
order_from zero n size = n
order_from (suc fuel) n size =
    let rest = order_from fuel (suc n) size in if leb size (4096 * 2 ^ n) then n else rest

order_from_ge :
    (fuel n size : ℕ) → size ≤ 4096 * 2 ^ (n + fuel) → size ≤ 4096 * 2 ^ order_from fuel n size
unfolding order_from
order_from_ge zero n size h = subst (λ i. size ≤ 4096 * 2 ^ i) (omega arith) h
order_from_ge (suc fuel) n size h =
    ground
      (arith, order_from_ge fuel (suc n) size (subst (λ i. size ≤ 4096 * 2 ^ i) (omega arith) h))

below_suc :
    (n size : ℕ)
    → ((i : ℕ) → i < n → 4096 * 2 ^ i < size)
    → 4096 * 2 ^ n < size
    → (i : ℕ) → i < suc n
    → 4096 * 2 ^ i < size
below_suc n size h e i lt = elim (Bool-cases (i == n)) [
  | inl same ↦ rw ((==_iff i n).0 same) e
  | inr other ↦ h i (ground arith)
]

pow_gt : (n : ℕ) → n < 2 ^ n
pow_gt zero = omega arith
pow_gt (suc n) = omega (arith, pow_gt n, pow-suc 2 n)

enough : (size : ℕ) → size ≤ 4096 * 2 ^ (0 + size)
enough size = rw (zero-add size) (omega (arith, pow_gt size))

order_from_least :
    (fuel n size m : ℕ)
    → ((i : ℕ) → i < n → 4096 * 2 ^ i < size)
    → m < order_from fuel n size
    → 4096 * 2 ^ m < size
unfolding order_from
order_from_least zero n size m h lt = h m lt
order_from_least (suc fuel) n size m h lt = elim (Bool-cases (leb size (4096 * 2 ^ n))) [
  | inl e ↦ h m (rw e at lt)
  | inr e ↦ order_from_least fuel (suc n) size m (below_suc n size h (ground arith)) (rw e at lt)
]

abbrev paging : Paging
paging = record {
  page_size = 4096;
  page_size_pos = omega arith;
  get_order = λ size. order_from size 0 size;
  get_order-ge = λ size h. order_from_ge size 0 size (enough size);
  get_order_least = λ size n h lt. order_from_least size 0 size n (λ i e. absurd (omega arith)) lt;
}
