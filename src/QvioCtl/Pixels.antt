-- ===== src/QvioCtl/Pixels.antt =====
-- The two kernels of samples/common/ZzCUDA.cu, byte by byte. A thread stores some bytes, each read from
-- elsewhere; the threads of a launch run in any order, so a run is a list of stores in any order.
pub mod Stores
pub mod Planes
use v4l2_tuto.Prelude.{
  ℕ, zero, suc, ◌+◌, ◌-◌, ◌*◌, ◌/◌, Bool, true, false, ◌&&◌, ◌||◌, ◌==◌, ltb, ◌^◌, ◌%◌, u32, List,
  [], ◌∷◌, ◌++◌, update, if◌then◌else◌,
}

-- One of the bytes that the thread at `x`, `y` stores.
pub record Cell : Type 0 where
  pub plane : ℕ
  pub x : ℕ
  pub y : ℕ

abbrev pub cell : ℕ → ℕ → ℕ → Cell
cell p x y = record { plane = p; x = x; y = y }

-- The stores of a run, each of the byte at `from` to the byte at `to`.
unfoldable pub run_stores : (to from : Cell → ℕ) → List Cell → (ℕ → ℕ) → ℕ → ℕ
run_stores to from [] m = m
run_stores to from (c ∷ cs) m = run_stores to from cs (update m (to c) (m (from c)))

-- `kernel_CbCr422_CbCr420_8u_P2C2R` and its arguments, in their order.
pub record Join : Type 0 where
  pub src0 : ℕ
  pub src0_step : ℕ
  pub src1 : ℕ
  pub src1_step : ℕ
  pub dst : ℕ
  pub dst_step : ℕ
  pub width : ℕ
  pub height : ℕ

-- The address of `p[i]` for an index `i` of the type `int`: its 32 bits, of which the highest is the sign.
unfoldable pub at : (p i : ℕ) → ℕ
at p i = if ltb (u32 i) (2 ^ 31) then p + u32 i else (p + u32 i + (2 ^ 64 - 2 ^ 32)) % 2 ^ 64

abbrev pub join_from : Join → Cell → ℕ
join_from k c =
    if c.plane == 0
    then at k.src0 (c.y * k.src0_step + c.x)
    else at k.src1 (c.y * k.src1_step + c.x)

abbrev pub join_to : Join → Cell → ℕ
join_to k c = at k.dst (c.y * k.dst_step + c.x * 2 + c.plane)

-- `kernel_YCbCr422_8u_C2P3R` and its arguments, in their order.
pub record Split : Type 0 where
  pub src : ℕ
  pub src_step : ℕ
  pub dst0 : ℕ
  pub dst0_step : ℕ
  pub dst1 : ℕ
  pub dst1_step : ℕ
  pub dst2 : ℕ
  pub dst2_step : ℕ
  pub width : ℕ
  pub height : ℕ

abbrev pub split_from : Split → Cell → ℕ
split_from k c = at k.src (c.y * k.src_step + (c.x * 4 + c.plane))

-- The bytes of a thread are Y1, Cb, Y2 and Cr.
abbrev pub split_to : Split → Cell → ℕ
split_to k c =
    if c.plane == 0
    then at k.dst0 (c.y * k.dst0_step + c.x * 2)
    else if c.plane == 1
    then at k.dst1 (c.y * k.dst1_step + c.x)
    else if c.plane == 2
    then at k.dst0 (c.y * k.dst0_step + (c.x * 2 + 1))
    else at k.dst2 (c.y * k.dst2_step + c.x)

cells : (n x y : ℕ) → List Cell
cells zero x y = []
cells (suc n) x y = cells n x y ++ cell n x y ∷ []

-- The stores of a thread of `n` bytes, none outside the image.
unfoldable pub thread : (n width height : ℕ) → ℕ → ℕ → List Cell
unfolding cells
thread n width height x y = if ltb x width && ltb y height then cells n x y else []

-- The stores of all threads of a row or a column of blocks.
threads_in_row : (ℕ → ℕ → List Cell) → (n y : ℕ) → List Cell
threads_in_row thread zero y = []
threads_in_row thread (suc n) y = threads_in_row thread n y ++ thread n y

threads_in : (ℕ → ℕ → List Cell) → (columns rows : ℕ) → List Cell
threads_in thread columns zero = []
threads_in thread columns (suc n) = threads_in thread columns n ++ threads_in_row thread columns n

-- Blocks of 16 by 16 threads, as many as reach over the image.
abbrev pub in_blocks : ℕ → ℕ
in_blocks n = (n + 15) / 16 * 16

-- The threads of a launch, row by row.
unfoldable pub launch : (n width height : ℕ) → List Cell
unfolding threads_in threads_in_row thread
launch n width height = threads_in (thread n width height) (in_blocks width) (in_blocks height)

-- `zppiCbCr422_CbCr420_8u_P2C2R`.
unfoldable pub join_launch : Join → List Cell
unfolding launch
join_launch k = launch 2 k.width k.height

-- `zppiYCbCr422_8u_C2P3R`, on half of the width.
unfoldable pub split_launch : Split → List Cell
unfolding launch
split_launch k = launch 4 (k.width / 2) k.height

abbrev pub same_cell : Cell → Cell → Bool
same_cell c d = (c.plane == d.plane) && ((c.x == d.x) && (c.y == d.y))

-- Whether a cell is stored.
abbrev pub stored : Cell → List Cell → Bool
stored c [] = false
stored c (d ∷ cs) = same_cell c d || stored c cs
