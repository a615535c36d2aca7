-- ===== src/Tests/Pixels.antt =====
-- The kernels of samples/common/ZzCUDA.cu on small images.
use v4l2_tuto.Prelude.{ℕ, ◌+◌, ◌*◌, ◌≡◌, refl, inl, inr, arith}
use v4l2_tuto.QvioCtl.Pixels.{
  Join, Split, run_stores, join_to, join_from, join_launch, split_to, split_from, split_launch,
}
use v4l2_tuto.QvioCtl.Pixels.Planes.{Laid, SplitLaid, join_launch-planes, split_launch-planes}

abbrev chroma : Join
chroma = record {
  src0 = 100;
  src0_step = 64;
  src1 = 500;
  src1_step = 64;
  dst = 1000;
  dst_step = 64;
  width = 3;
  height = 2;
}

chroma-Laid : Laid chroma
chroma-Laid = record {
  row = omega arith;
  row0 = omega arith;
  row1 = omega arith;
  apart0 = inl (omega arith);
  apart1 = inl (omega arith);
  small = omega arith;
  small0 = omega arith;
  small1 = omega arith;
}

abbrev pixels : Split
pixels = record {
  src = 1000;
  src_step = 128;
  dst0 = 0;
  dst0_step = 64;
  dst1 = 200;
  dst1_step = 64;
  dst2 = 400;
  dst2_step = 64;
  width = 7;
  height = 2;
}

pixels-SplitLaid : SplitLaid pixels
pixels-SplitLaid = record {
  row = omega arith;
  row0 = omega arith;
  row1 = omega arith;
  row2 = omega arith;
  apart0 = inr (omega arith);
  apart1 = inr (omega arith);
  apart2 = inr (omega arith);
  apart01 = inl (omega arith);
  apart02 = inl (omega arith);
  apart12 = inl (omega arith);
  small = omega arith;
  small0 = omega arith;
  small1 = omega arith;
  small2 = omega arith;
}

-- Each address holds its own number.
abbrev memory : ℕ → ℕ
memory i = i

join_launch-planes_example :
    let m = run_stores (join_to chroma) (join_from chroma) (join_launch chroma) memory in
    (m (1000 + (1 * 64 + 2 * 2)) ≡ 100 + (1 * 64 + 2))
    × (m (1000 + (1 * 64 + 2 * 2 + 1)) ≡ 500 + (1 * 64 + 2))
join_launch-planes_example =
    join_launch-planes chroma (join_launch chroma) memory 2 1 chroma-Laid (λ d. refl) (omega arith)
      (omega arith)

split_launch-planes_example :
    let m = run_stores (split_to pixels) (split_from pixels) (split_launch pixels) memory in
    (m (0 + (1 * 64 + 2 * 2)) ≡ 1000 + (1 * 128 + (2 * 4 + 0)))
    × (m (200 + (1 * 64 + 2)) ≡ 1000 + (1 * 128 + (2 * 4 + 1)))
    × (m (0 + (1 * 64 + (2 * 2 + 1))) ≡ 1000 + (1 * 128 + (2 * 4 + 2)))
    × (m (400 + (1 * 64 + 2)) ≡ 1000 + (1 * 128 + (2 * 4 + 3)))
split_launch-planes_example =
    split_launch-planes pixels pixels-SplitLaid (split_launch pixels) memory 2 1 (λ d. refl)
      (omega arith) (omega arith)
