-- ===== src/QvioCtl/Pixels/Planes.antt =====
-- On the kernels of samples/common/ZzCUDA.cu: what the planes hold afterwards, whatever the order of the threads.
use v4l2_tuto.Prelude.{
  ℕ, ◌+◌, ◌*◌, ◌/◌, ◌≡◌, ◌≢◌, ◌≤◌, ◌<◌, ◌^◌, ◌∙◌, ap, refl, sym, subst, Bool, true, false, ◌==◌,
  List, if◌then◌else◌, arith, Bool-cases, inl, inr,
}
use v4l2_tuto.QvioCtl.Pixels.{
  at, Split, split_from, split_to, split_launch, Cell, cell, run_stores, Join, join_from, join_to,
  join_launch, stored,
}
use v4l2_tuto.QvioCtl.Pixels.Stores.{same_row, in_rows, Apart, in_image, launch_right}

-- The rows hold the image, the destination lies apart from the sources, and the indices fit an `int`.
pub record Laid (k : Join) : Type 0 where
  pub row : k.width * 2 ≤ k.dst_step
  pub row0 : k.width ≤ k.src0_step
  pub row1 : k.width ≤ k.src1_step
  pub apart0 : Apart k.src0 (k.height * k.src0_step) k.dst (k.height * k.dst_step)
  pub apart1 : Apart k.src1 (k.height * k.src1_step) k.dst (k.height * k.dst_step)
  pub small : k.height * k.dst_step < 2 ^ 31
  pub small0 : k.height * k.src0_step < 2 ^ 31
  pub small1 : k.height * k.src1_step < 2 ^ 31

-- The same addresses where the indices fit.
abbrev plain_from : Join → Cell → ℕ
plain_from k c =
    if c.plane == 0 then k.src0 + (c.y * k.src0_step + c.x) else k.src1 + (c.y * k.src1_step + c.x)

abbrev plain_to : Join → Cell → ℕ
plain_to k c = k.dst + (c.y * k.dst_step + c.x * 2 + c.plane)

at_small : (p i n : ℕ) → i < n → n < 2 ^ 31 → at p i ≡ p + i
unfolding at
at_small p i n h small = ground (arith, h, small)

join_to-plain_to :
    (k : Join)
    → Laid k
    → (c : Cell) → in_image 2 k.width k.height c ≡ true
    → join_to k c ≡ plain_to k c
join_to-plain_to k l c u =
    at_small k.dst (c.y * k.dst_step + c.x * 2 + c.plane) (k.height * k.dst_step)
      (omega (
        arith,
        in_rows k.dst_step c.y k.height (c.x * 2 + c.plane) (ground (arith, u))
            (ground (arith, l.row, u)),
      ))
      l.small

join_from-plain_from :
    (k : Join)
    → Laid k
    → (c : Cell) → in_image 2 k.width k.height c ≡ true
    → join_from k c ≡ plain_from k c
join_from-plain_from k l c u =
    let y : c.y < k.height = ground (arith, u) in
    let a =
      at_small k.src0 (c.y * k.src0_step + c.x) (k.height * k.src0_step)
        (in_rows k.src0_step c.y k.height c.x y (ground (arith, l.row0, u))) l.small0 in
    let b =
      at_small k.src1 (c.y * k.src1_step + c.x) (k.height * k.src1_step)
        (in_rows k.src1_step c.y k.height c.x y (ground (arith, l.row1, u))) l.small1 in
    rw (a, b) refl

-- What holds of the addresses of a byte holds of the plain ones.
plain_right : (m m' : ℕ → ℕ) (a b c d : ℕ) → a ≡ c → b ≡ d → m' a ≡ m b → m' c ≡ m d
plain_right m m' a b c d e f h = sym (ap m' e) ∙ h ∙ ap m f

plain_to-apart :
    (k : Join)
    → Laid k
    → (c d : Cell) → in_image 2 k.width k.height c ≡ true
    → in_image 2 k.width k.height d ≡ true
    → plain_to k c ≡ plain_to k d
    → c ≡ d
plain_to-apart k l c d u v e =
    let (y, r) =
      same_row k.dst_step c.y d.y (c.x * 2 + c.plane) (d.x * 2 + d.plane) (ground (arith, l.row, u))
        (ground (arith, l.row, v)) (omega (arith, e)) in
    ground (arith, y, r, u, v)

plain_clear :
    (k : Join)
    → Laid k
    → (c d : Cell) → in_image 2 k.width k.height c ≡ true
    → in_image 2 k.width k.height d ≡ true
    → plain_to k c ≢ plain_from k d
plain_clear k l c d u v e =
    let t =
      in_rows k.dst_step c.y k.height (c.x * 2 + c.plane) (ground (arith, u))
        (ground (arith, l.row, u)) in
    let a = in_rows k.src0_step d.y k.height d.x (ground (arith, v)) (ground (arith, l.row0, v)) in
    let b = in_rows k.src1_step d.y k.height d.x (ground (arith, v)) (ground (arith, l.row1, v)) in
    ground (arith, l.apart0, l.apart1, t, a, b, e)

join_to-apart :
    (k : Join)
    → Laid k
    → (c d : Cell) → in_image 2 k.width k.height c ≡ true
    → in_image 2 k.width k.height d ≡ true
    → join_to k c ≡ join_to k d
    → c ≡ d
join_to-apart k l c d u v e =
    plain_to-apart k l c d u v (sym (join_to-plain_to k l c u) ∙ e ∙ join_to-plain_to k l d v)

join_clear :
    (k : Join)
    → Laid k
    → (c d : Cell) → in_image 2 k.width k.height c ≡ true
    → in_image 2 k.width k.height d ≡ true
    → join_to k c ≢ join_from k d
join_clear k l c d u v e =
    plain_clear k l c d u v (sym (join_to-plain_to k l c u) ∙ e ∙ join_from-plain_from k l d v)

-- Two planes of chroma lie apart from the destination, rows are as long as the image is wide, and height
-- times step is below 2^31 for each. The threads of
-- a launch of the joining kernel store their bytes in any order, some perhaps more than once. Then the
-- destination holds, for each place of the image, the byte of the first plane and behind it that of the second.
pub join_launch-planes :
    (k : Join) (cs : List Cell) (m : ℕ → ℕ) (x y : ℕ)
    → Laid k
    → ((d : Cell) → stored d cs ≡ stored d (join_launch k))
    → x < k.width
    → y < k.height
    → let m' = run_stores (join_to k) (join_from k) cs m in
      (m' (k.dst + (y * k.dst_step + x * 2)) ≡ m (k.src0 + (y * k.src0_step + x)))
      × (m' (k.dst + (y * k.dst_step + x * 2 + 1)) ≡ m (k.src1 + (y * k.src1_step + x)))
unfolding join_launch
join_launch-planes k cs m x y l same wide high =
    let m' = run_stores (join_to k) (join_from k) cs m in
    let right = λ (p : ℕ) (small : p < 2).
      let v : in_image 2 k.width k.height (cell p x y) ≡ true = ground (arith, small, wide, high) in
      plain_right m m' _ _ _ _ (join_to-plain_to k l (cell p x y) v)
        (join_from-plain_from k l (cell p x y) v)
        (launch_right 2 k.width k.height (join_to k) (join_from k) cs m (cell p x y)
          (join_to-apart k l) (join_clear k l) same v) in
    (
      subst (λ i. m' (k.dst + i) ≡ m (k.src0 + (y * k.src0_step + x))) (omega arith)
          (right 0 (omega arith)),
      right 1 (omega arith),
    )

-- The rows hold the image, of whose pairs of pixels each thread takes one, the areas lie apart, and the
-- indices fit an `int`.
pub record SplitLaid (k : Split) : Type 0 where
  pub row : k.width / 2 * 4 ≤ k.src_step
  pub row0 : k.width / 2 * 2 ≤ k.dst0_step
  pub row1 : k.width / 2 ≤ k.dst1_step
  pub row2 : k.width / 2 ≤ k.dst2_step
  pub apart0 : Apart k.src (k.height * k.src_step) k.dst0 (k.height * k.dst0_step)
  pub apart1 : Apart k.src (k.height * k.src_step) k.dst1 (k.height * k.dst1_step)
  pub apart2 : Apart k.src (k.height * k.src_step) k.dst2 (k.height * k.dst2_step)
  pub apart01 : Apart k.dst0 (k.height * k.dst0_step) k.dst1 (k.height * k.dst1_step)
  pub apart02 : Apart k.dst0 (k.height * k.dst0_step) k.dst2 (k.height * k.dst2_step)
  pub apart12 : Apart k.dst1 (k.height * k.dst1_step) k.dst2 (k.height * k.dst2_step)
  pub small : k.height * k.src_step < 2 ^ 31
  pub small0 : k.height * k.dst0_step < 2 ^ 31
  pub small1 : k.height * k.dst1_step < 2 ^ 31
  pub small2 : k.height * k.dst2_step < 2 ^ 31

abbrev split_plain_from : Split → Cell → ℕ
split_plain_from k c = k.src + (c.y * k.src_step + (c.x * 4 + c.plane))

abbrev split_plain_to : Split → Cell → ℕ
split_plain_to k c =
    if c.plane == 0
    then k.dst0 + (c.y * k.dst0_step + c.x * 2)
    else if c.plane == 1
    then k.dst1 + (c.y * k.dst1_step + c.x)
    else if c.plane == 2
    then k.dst0 + (c.y * k.dst0_step + (c.x * 2 + 1))
    else k.dst2 + (c.y * k.dst2_step + c.x)

module _ (k : Split) (l : SplitLaid k) where
  abbrev in_split : Cell → Bool
  in_split = in_image 4 (k.width / 2) k.height

  -- The column of a byte of Y.
  abbrev y_column : Cell → ℕ
  y_column c = if c.plane == 0 then c.x * 2 else c.x * 2 + 1

  y_bounds : (c : Cell) → in_split c ≡ true → y_column c < k.dst0_step
  y_bounds c v = ground (arith, l.row0, v)

  in_dst0 : (c : Cell) → in_split c ≡ true → c.y * k.dst0_step + y_column c < k.height * k.dst0_step
  in_dst0 c v = in_rows k.dst0_step c.y k.height (y_column c) (ground (arith, v)) (y_bounds c v)

  in_dst1 : (c : Cell) → in_split c ≡ true → c.y * k.dst1_step + c.x < k.height * k.dst1_step
  in_dst1 c v = in_rows k.dst1_step c.y k.height c.x (ground (arith, v)) (ground (arith, l.row1, v))

  in_dst2 : (c : Cell) → in_split c ≡ true → c.y * k.dst2_step + c.x < k.height * k.dst2_step
  in_dst2 c v = in_rows k.dst2_step c.y k.height c.x (ground (arith, v)) (ground (arith, l.row2, v))

  in_src :
      (c : Cell)
      → in_split c ≡ true
      → c.y * k.src_step + (c.x * 4 + c.plane) < k.height * k.src_step
  in_src c v =
      in_rows k.src_step c.y k.height (c.x * 4 + c.plane) (ground (arith, v))
        (ground (arith, l.row, v))

  split_plain_clear :
      (c d : Cell)
      → in_split c ≡ true
      → in_split d ≡ true
      → split_plain_to k c ≢ split_plain_from k d
  split_plain_clear c d u v e = ground (
    arith,
    l.apart0,
    l.apart1,
    l.apart2,
    in_dst0 c u,
    in_dst1 c u,
    in_dst2 c u,
    in_src d v,
    u,
    v,
    e,
  )

  -- Two bytes of one destination lie in one row and one column.
  y_apart :
      (c d : Cell)
      → in_split c ≡ true
      → in_split d ≡ true
      → (c.plane == 1) ≡ false
      → (d.plane == 1) ≡ false
      → (c.plane == 3) ≡ false
      → (d.plane == 3) ≡ false
      → split_plain_to k c ≡ split_plain_to k d
      → c ≡ d
  y_apart c d u v c1 d1 c3 d3 e =
      let (y, r) =
        same_row k.dst0_step c.y d.y (y_column c) (y_column d) (y_bounds c u) (y_bounds d v)
          (ground (arith, u, v, c1, d1, c3, d3, e)) in
      ground (arith, y, r, u, v, c1, d1, c3, d3)

  cb_apart :
      (c d : Cell)
      → in_split c ≡ true
      → in_split d ≡ true
      → (c.plane == 1) ≡ true
      → (d.plane == 1) ≡ true
      → split_plain_to k c ≡ split_plain_to k d
      → c ≡ d
  cb_apart c d u v c1 d1 e =
      let (y, r) =
        same_row k.dst1_step c.y d.y c.x d.x (ground (arith, l.row1, u)) (ground (arith, l.row1, v))
          (ground (arith, c1, d1, e)) in
      ground (arith, y, r, c1, d1)

  cr_apart :
      (c d : Cell)
      → in_split c ≡ true
      → in_split d ≡ true
      → (c.plane == 3) ≡ true
      → (d.plane == 3) ≡ true
      → split_plain_to k c ≡ split_plain_to k d
      → c ≡ d
  cr_apart c d u v c3 d3 e =
      let (y, r) =
        same_row k.dst2_step c.y d.y c.x d.x (ground (arith, l.row2, u)) (ground (arith, l.row2, v))
          (ground (arith, c3, d3, e)) in
      ground (arith, y, r, c3, d3)

  -- Bytes of different destinations lie apart.
  cb_other :
      (c d : Cell)
      → in_split c ≡ true
      → in_split d ≡ true
      → (c.plane == 1) ≡ true
      → (d.plane == 1) ≡ false
      → split_plain_to k c ≢ split_plain_to k d
  cb_other c d u v c1 d1 e =
      ground (arith, l.apart01, l.apart12, in_dst1 c u, in_dst0 d v, in_dst2 d v, v, c1, d1, e)

  cr_other :
      (c d : Cell)
      → in_split c ≡ true
      → in_split d ≡ true
      → (c.plane == 3) ≡ true
      → (d.plane == 3) ≡ false
      → split_plain_to k c ≢ split_plain_to k d
  cr_other c d u v c3 d3 e =
      ground (arith, l.apart02, l.apart12, in_dst2 c u, in_dst0 d v, in_dst1 d v, v, c3, d3, e)

  split_plain-apart :
      (c d : Cell)
      → in_split c ≡ true
      → in_split d ≡ true
      → split_plain_to k c ≡ split_plain_to k d
      → c ≡ d
  split_plain-apart c d u v e = elim (Bool-cases (c.plane == 1)) [
    | inl c1 ↦ elim (Bool-cases (d.plane == 1)) [
      | inl d1 ↦ cb_apart c d u v c1 d1 e
      | inr d1 ↦ absurd (cb_other c d u v c1 d1 e)
    ]
    | inr c1 ↦ elim (Bool-cases (d.plane == 1)) [
      | inl d1 ↦ absurd (cb_other d c v u d1 c1 (sym e))
      | inr d1 ↦ elim (Bool-cases (c.plane == 3)) [
        | inl c3 ↦ elim (Bool-cases (d.plane == 3)) [
          | inl d3 ↦ cr_apart c d u v c3 d3 e
          | inr d3 ↦ absurd (cr_other c d u v c3 d3 e)
        ]
        | inr c3 ↦ elim (Bool-cases (d.plane == 3)) [
          | inl d3 ↦ absurd (cr_other d c v u d3 c3 (sym e))
          | inr d3 ↦ y_apart c d u v c1 d1 c3 d3 e
        ]
      ]
    ]
  ]

  split_to-plain : (c : Cell) → in_split c ≡ true → split_to k c ≡ split_plain_to k c
  split_to-plain c u =
      let y : c.y < k.height = ground (arith, u) in
      let x : c.x < k.width / 2 = ground (arith, u) in
      let first =
        at_small k.dst0 (c.y * k.dst0_step + c.x * 2) (k.height * k.dst0_step)
          (in_rows k.dst0_step c.y k.height (c.x * 2) y (omega (arith, l.row0, x))) l.small0 in
      let second =
        at_small k.dst0 (c.y * k.dst0_step + (c.x * 2 + 1)) (k.height * k.dst0_step)
          (in_rows k.dst0_step c.y k.height (c.x * 2 + 1) y (omega (arith, l.row0, x))) l.small0 in
      let cb =
        at_small k.dst1 (c.y * k.dst1_step + c.x) (k.height * k.dst1_step) (in_dst1 c u) l.small1 in
      let cr =
        at_small k.dst2 (c.y * k.dst2_step + c.x) (k.height * k.dst2_step) (in_dst2 c u) l.small2 in
      rw (first, second, cb, cr) refl

  split_from-plain : (c : Cell) → in_split c ≡ true → split_from k c ≡ split_plain_from k c
  split_from-plain c u =
      at_small k.src (c.y * k.src_step + (c.x * 4 + c.plane)) (k.height * k.src_step) (in_src c u)
        l.small

  split_clear : (c d : Cell) → in_split c ≡ true → in_split d ≡ true → split_to k c ≢ split_from k d
  split_clear c d u v e =
      split_plain_clear c d u v (sym (split_to-plain c u) ∙ e ∙ split_from-plain d v)

  split_to-apart :
      (c d : Cell) → in_split c ≡ true → in_split d ≡ true → split_to k c ≡ split_to k d → c ≡ d
  split_to-apart c d u v e =
      split_plain-apart c d u v (sym (split_to-plain c u) ∙ e ∙ split_to-plain d v)

  -- The threads of a launch of the splitting kernel store their bytes in any order, some perhaps more than once,
  -- from rows of pairs of pixels to three planes that lie apart from them and from each other, where
  -- height times step is below 2^31 for each. Then each
  -- pair's Y1 and Y2 stand side by side in the first plane, and its Cb and Cr in the second and third.
  pub split_launch-planes :
      (cs : List Cell) (m : ℕ → ℕ) (x y : ℕ)
      → ((d : Cell) → stored d cs ≡ stored d (split_launch k))
      → x < k.width / 2
      → y < k.height
      → let m' = run_stores (split_to k) (split_from k) cs m in
        let s = y * k.src_step in
        (m' (k.dst0 + (y * k.dst0_step + x * 2)) ≡ m (k.src + (s + (x * 4 + 0))))
        × (m' (k.dst1 + (y * k.dst1_step + x)) ≡ m (k.src + (s + (x * 4 + 1))))
        × (m' (k.dst0 + (y * k.dst0_step + (x * 2 + 1))) ≡ m (k.src + (s + (x * 4 + 2))))
        × (m' (k.dst2 + (y * k.dst2_step + x)) ≡ m (k.src + (s + (x * 4 + 3))))
  unfolding split_launch
  split_launch-planes cs m x y same wide high =
      let m' = run_stores (split_to k) (split_from k) cs m in
      let right = λ (p : ℕ) (small : p < 4).
        let v : in_split (cell p x y) ≡ true = ground (arith, small, wide, high) in
        plain_right m m' _ _ _ _ (split_to-plain (cell p x y) v) (split_from-plain (cell p x y) v) (
          launch_right 4 (k.width / 2) k.height (split_to k) (split_from k) cs m (cell p x y)
            split_to-apart split_clear same v) in
      (right 0 (omega arith), right 1 (omega arith), right 2 (omega arith), right 3 (omega arith))
