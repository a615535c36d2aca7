-- ===== src/QvioCtl/Copy/Areas.antt =====
-- On the copying of `App::VidUserJob_BUF_DONE` in samples/03_qvio-ctl/main.cpp: where its calls read and write.
use v4l2_tuto.Prelude.{
  subst, ℕ, zero, suc, ◌+◌, ◌-◌, ◌*◌, ◌/◌, ◌^◌, ◌≡◌, ◌∙◌, ap, ◌≤◌, ◌<◌, Bool, true, false, ◌&&◌,
  ◌||◌, ◌==◌, leb, List, [], ◌∷◌, u32, if◌then◌else◌, arith,
}
use native.Mathlib.Nat.{suc-mul, mul_assoc, mul_comm, mul-le-mul_right}
use v4l2_tuto.Qvio.Format.{Format}
use v4l2_tuto.QvioCtl.Copy.{Rect, rect, indexed, as_int, Call, VpssBufs, frame_calls}

-- An allocation or a mapping.
pub record Area : Type 0 where
  pub base : ℕ
  pub size : ℕ

-- The bytes from the first row's start to the last row's end.
abbrev pub extent : Rect → ℕ
extent r = if r.rows == 0 then 0 else (r.rows - 1) * r.step + r.row

abbrev pub inside : Area → Rect → Bool
inside a r = leb a.base r.base && leb (r.base + extent r) (a.base + a.size)

unfoldable pub in_one_of : List Area → Rect → Bool
in_one_of [] r = false
in_one_of (a ∷ l) r = inside a r || in_one_of l r

unfoldable pub all_in : List Area → List Rect → Bool
all_in l [] = true
all_in l (r ∷ rs) = in_one_of l r && all_in l rs

unfoldable pub calls_in : List Area → List Call → Bool
calls_in l [] = true
calls_in l (c ∷ cs) = (all_in l c.reads && all_in l c.writes) && calls_in l cs

-- The sizes that the calls rely on: what `nppiMalloc_8u_C1` and the surface give, the buffers' lengths, and
-- products that fit 32 bits, or an `int` where the kernels use one.
pub record Sized (v : VpssBufs) (f g : Format) (from_length to_length : ℕ) : Type 0 where
  pub line : f.width * 2 ≤ f.bytesperline
  pub frame : f.height * f.bytesperline ≤ from_length
  pub pitch : f.width * 2 ≤ v.pitch
  pub pitch_int : v.pitch < 2 ^ 31
  pub surface_int : f.height * v.pitch < 2 ^ 31
  pub scaled1_int : g.height / 2 * v.scaled1_step < 2 ^ 31
  pub src_step : f.width ≤ v.src_step
  pub scaled_step : g.width ≤ v.scaled_step
  pub scaled1_step : g.width ≤ v.scaled1_step
  pub src_word : f.height * v.src_step * 2 < 4294967296
  pub scaled_word : g.height * v.scaled_step * 2 < 4294967296
  pub width_word : f.width * 2 < 4294967296
  pub buffer_word : g.height * g.bytesperline < 4294967296
  pub buffer_line : g.width ≤ g.bytesperline
  pub buffer : g.height * g.bytesperline + g.height / 2 * g.bytesperline ≤ to_length

-- The six areas: the surface, the three planes' buffers, the camera's buffer and the driver's.
abbrev pub areas : VpssBufs → (f g : Format) → (from from_length to to_length : ℕ) → List Area
areas v f g from from_length to to_length =
    record { base = v.egl_frame; size = f.height * v.pitch }
    ∷ record { base = v.src; size = f.height * v.src_step * 3 }
    ∷ record { base = v.scaled; size = g.height * v.scaled_step * 3 }
    ∷ record { base = v.scaled1; size = g.height / 2 * v.scaled1_step }
    ∷ record { base = from; size = from_length }
    ∷ record { base = to; size = to_length }
    ∷ []

extent_le : (b s row n : ℕ) → row ≤ s → extent (rect b s row n) ≤ n * s
extent_le b s row zero h = omega arith
extent_le b s row (suc n) h = ground (arith, suc-mul n s, h)

pub half_rows : (h s : ℕ) → h / 2 * (s * 2) ≤ h * s
half_rows h s =
    subst (λ k. k ≤ h * s) (mul_assoc (h / 2) 2 s ∙ ap (λ k. h / 2 * k) (mul_comm 2 s))
      (mul-le-mul_right s (omega arith))

inside_of :
    (a : Area) (b s row n : ℕ)
    → row ≤ s
    → a.base ≤ b
    → b + n * s ≤ a.base + a.size
    → inside a (rect b s row n) ≡ true
inside_of a b s row n h low high = ground (arith, low, high, extent_le b s row n h)

module _ (v : VpssBufs) (f g : Format) (from from_length to to_length : ℕ)
    (z : Sized v f g from_length to_length) where
  abbrev pub here : List Area
  here = areas v f g from from_length to to_length

  in_surface :
      (row : ℕ) → row ≤ v.pitch → in_one_of here (rect v.egl_frame v.pitch row f.height) ≡ true
  unfolding in_one_of
  in_surface row h = ground (
    arith,
    inside_of (record { base = v.egl_frame; size = f.height * v.pitch }) v.egl_frame v.pitch row
        f.height h (omega arith) (omega arith),
  )

  in_src :
      (b row : ℕ)
      → row ≤ v.src_step
      → v.src ≤ b
      → b ≤ v.src + f.height * v.src_step * 2
      → in_one_of here (rect b v.src_step row f.height) ≡ true
  unfolding in_one_of
  in_src b row h low high = ground (
    arith,
    inside_of (record { base = v.src; size = f.height * v.src_step * 3 }) b v.src_step row f.height
        h low (omega (arith, high)),
  )

  in_scaled :
      (b step row n : ℕ)
      → row ≤ step
      → n * step ≤ g.height * v.scaled_step
      → v.scaled ≤ b
      → b ≤ v.scaled + g.height * v.scaled_step * 2
      → in_one_of here (rect b step row n) ≡ true
  unfolding in_one_of
  in_scaled b step row n h fits low high = ground (
    arith,
    inside_of (record { base = v.scaled; size = g.height * v.scaled_step * 3 }) b step row n h low
        (omega (arith, high, fits)),
  )

  in_scaled1 :
      (row : ℕ)
      → row ≤ v.scaled1_step
      → in_one_of here (rect v.scaled1 v.scaled1_step row (g.height / 2)) ≡ true
  unfolding in_one_of
  in_scaled1 row h = ground (
    arith,
    inside_of (record { base = v.scaled1; size = g.height / 2 * v.scaled1_step }) v.scaled1
        v.scaled1_step row (g.height / 2) h (omega arith) (omega arith),
  )

  in_from :
      (row : ℕ)
      → row ≤ f.bytesperline
      → in_one_of here (rect from f.bytesperline row f.height) ≡ true
  unfolding in_one_of
  in_from row h = ground (
    arith,
    inside_of (record { base = from; size = from_length }) from f.bytesperline row f.height h
        (omega arith) (omega (arith, z.frame)),
  )

  in_to :
      (b n : ℕ)
      → to ≤ b
      → b + n * g.bytesperline ≤ to + to_length
      → in_one_of here (rect b g.bytesperline g.width n) ≡ true
  unfolding in_one_of
  in_to b n low high = ground (
    arith,
    inside_of (record { base = to; size = to_length }) b g.bytesperline g.width n z.buffer_line low
        high,
  )

  src_product : u32 (v.src_step * f.height) ≡ f.height * v.src_step
  src_product = omega (arith, mul_comm v.src_step f.height, z.src_word)

  scaled_product : u32 (v.scaled_step * g.height) ≡ g.height * v.scaled_step
  scaled_product = omega (arith, mul_comm v.scaled_step g.height, z.scaled_word)

  plain_pitch : as_int v.pitch ≡ v.pitch
  unfolding as_int
  plain_pitch = ground (arith, z.pitch_int)

  plain :
      (base step row rows : ℕ)
      → rows * step < 2 ^ 31
      → indexed base step row rows ≡ rect base step row rows
  unfolding indexed
  plain base step row rows h = ground (arith, h)

  pub frame_calls-areas : calls_in here (frame_calls v f g from to) ≡ true
  unfolding calls_in all_in
  frame_calls-areas =
      let p = src_product in
      let q = scaled_product in
      let whole : g.height * v.scaled_step ≤ g.height * v.scaled_step = omega arith in
      let half = half_rows g.height v.scaled_step in
      rw (
        plain_pitch,
        plain v.egl_frame v.pitch (f.width / 2 * 4) f.height z.surface_int,
        plain v.src v.src_step (f.width / 2 * 2) f.height (omega (arith, z.src_word)),
        plain (v.src + u32 (v.src_step * f.height)) v.src_step (f.width / 2) f.height
            (omega (arith, z.src_word)),
        plain (v.src + u32 (u32 (v.src_step * f.height) * 2)) v.src_step (f.width / 2) f.height
            (omega (arith, z.src_word)),
        plain (v.scaled + u32 (v.scaled_step * g.height)) (v.scaled_step * 2) (g.width / 2)
            (g.height / 2) (omega (arith, half, z.scaled_word)),
        plain (v.scaled + u32 (u32 (v.scaled_step * g.height) * 2)) (v.scaled_step * 2)
            (g.width / 2) (g.height / 2) (omega (arith, half, z.scaled_word)),
        plain v.scaled1 v.scaled1_step (g.width / 2 * 2) (g.height / 2) z.scaled1_int,
        in_from (u32 (f.width * 2)) (omega (arith, z.line)),
        in_surface (u32 (f.width * 2)) (omega (arith, z.pitch)),
        in_surface (f.width / 2 * 4) (omega (arith, z.pitch)),
        in_src v.src (f.width / 2 * 2) (omega (arith, z.src_step)) (omega arith) (omega arith),
        in_src (v.src + u32 (v.src_step * f.height)) (f.width / 2) (omega (arith, z.src_step))
            (omega arith) (omega (arith, p)),
        in_src (v.src + u32 (u32 (v.src_step * f.height) * 2)) (f.width / 2)
            (omega (arith, z.src_step)) (omega arith) (omega (arith, p)),
        in_src v.src f.width z.src_step (omega arith) (omega arith),
        in_scaled v.scaled v.scaled_step g.width g.height z.scaled_step whole (omega arith)
            (omega arith),
        in_src (v.src + f.height * v.src_step) (f.width / 2) (omega (arith, z.src_step))
            (omega arith) (omega arith),
        in_scaled (v.scaled + g.height * v.scaled_step) v.scaled_step (g.width / 2) g.height
            (omega (arith, z.scaled_step)) whole (omega arith) (omega arith),
        in_src (v.src + f.height * v.src_step + f.height * v.src_step) (f.width / 2)
            (omega (arith, z.src_step)) (omega arith) (omega arith),
        in_scaled (v.scaled + g.height * v.scaled_step + g.height * v.scaled_step) v.scaled_step
            (g.width / 2) g.height (omega (arith, z.scaled_step)) whole (omega arith) (omega arith),
        in_scaled (v.scaled + u32 (v.scaled_step * g.height)) (v.scaled_step * 2) (g.width / 2)
            (g.height / 2) (omega (arith, z.scaled_step)) half (omega arith) (omega (arith, q)),
        in_scaled (v.scaled + u32 (u32 (v.scaled_step * g.height) * 2)) (v.scaled_step * 2)
            (g.width / 2) (g.height / 2) (omega (arith, z.scaled_step)) half (omega arith)
            (omega (arith, q)),
        in_scaled1 (g.width / 2 * 2) (omega (arith, z.scaled1_step)),
        in_scaled1 g.width z.scaled1_step,
        in_to to g.height (omega arith) (omega (arith, z.buffer)),
        in_to (to + u32 (g.height * g.bytesperline)) (g.height / 2) (omega arith)
            (omega (arith, z.buffer, z.buffer_word)),
      )
