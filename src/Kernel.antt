-- ===== src/Kernel.antt =====
-- What the drivers use of the Linux kernel: its return codes, and the rounding macro `ALIGN`,
-- which is taken as an interface with the laws that its documentation states.
use v4l2_tuto.Prelude.{ℕ, ◌+◌, ◌%◌, ◌^◌, ◌≤◌, ◌<◌, ◌≡◌, Bool, true, false, ◌==◌, not}

-- The error numbers that the drivers return or look at.
pub data Errno : Type 0 where
  einval enomem eio efault eproto enotty eagain enoioctlcmd eiocbqueued erestartsys : Errno
  errno : ℕ → Errno

-- An `int` or `long` result: a count or descriptor, `-e`, or `+e` where the source drops the sign.
pub data Ret : Type 0 where
  value : ℕ → Ret
  neg pos : Errno → Ret

abbrev pub success : Ret
success = value 0

-- `if(err)`.
abbrev pub is_set : Ret → Bool
is_set (value n) = not (n == 0)
is_set (neg e) = true
is_set (pos e) = true

-- `if(err < 0)`.
abbrev pub is_neg : Ret → Bool
is_neg (value n) = false
is_neg (neg e) = true
is_neg (pos e) = false

-- `ALIGN(x, a)` on `unsigned int`: the least multiple of the power of two `a` from `x` on, as long
-- as the sum fits 32 bits. `align_long` is the same on `unsigned long`, with 64 bits.
pub record Align : Type 0 where
  pub align : ℕ → ℕ → ℕ
  pub align-word : (x a : ℕ) → align x a < 2 ^ 32
  pub align-ge : (x k : ℕ) → x + 2 ^ k ≤ 2 ^ 32 → x ≤ align x (2 ^ k)
  pub align-lt : (x k : ℕ) → x + 2 ^ k ≤ 2 ^ 32 → align x (2 ^ k) < x + 2 ^ k
  pub align-mod : (x k : ℕ) → x + 2 ^ k ≤ 2 ^ 32 → align x (2 ^ k) % 2 ^ k ≡ 0
  pub align_long : ℕ → ℕ → ℕ
  pub align_long-ge : (x k : ℕ) → x + 2 ^ k ≤ 2 ^ 64 → x ≤ align_long x (2 ^ k)
  pub align_long-lt : (x k : ℕ) → x + 2 ^ k ≤ 2 ^ 64 → align_long x (2 ^ k) < x + 2 ^ k
  pub align_long-mod : (x k : ℕ) → x + 2 ^ k ≤ 2 ^ 64 → align_long x (2 ^ k) % 2 ^ k ≡ 0

abbrev pub align : ⦃a : Align⦄ → ℕ → ℕ → ℕ
align ⦃a⦄ = a.align

abbrev pub align_long : ⦃a : Align⦄ → ℕ → ℕ → ℕ
align_long ⦃a⦄ = a.align_long
