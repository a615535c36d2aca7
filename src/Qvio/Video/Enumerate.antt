-- ===== src/Qvio/Video/Enumerate.antt =====
-- On modules/qvio/video.c: the enumeration handlers against those that set.
use v4l2_tuto.Prelude.{ℕ, zero, suc, ◌≡◌, ◌≢◌, ◌↔◌, ◌⊎◌, true, arith}
use v4l2_tuto.Kernel.{einval, neg, success}
use v4l2_tuto.Qvio.Format.{PixelFormat, yuyv, nv12, m420, fourcc, Format, same_type_iff}
use v4l2_tuto.Qvio.Video.{Video, is_rx, is_tx, StreamParm}
use v4l2_tuto.Qvio.Video.Formats.{try_fmt, known_format}
use v4l2_tuto.Qvio.Video.Negotiate.{known_type, try_fmt_iff}
use v4l2_tuto.Qvio.Video.Handlers.{
  FmtDesc, enum_fmt, g_input, s_input, g_output, s_output, g_parm, s_parm,
}

-- Where `enum_fmt` lists a known format.
index_of : PixelFormat → ℕ
index_of yuyv = 0
index_of nv12 = 1
index_of m420 = 2
index_of (fourcc c) = 3

abbrev Lists : Video → FmtDesc → PixelFormat → ℕ → Type 0
Lists v d p i =
    ((enum_fmt v (record d { index = i })).1 ≡ success)
    × ((enum_fmt v (record d { index = i })).0.pixelformat ≡ p)

Lists-index_of :
    (v : Video) (d : FmtDesc) (p : PixelFormat)
    → d.type ≡ v.buffer_type
    → known_format p ≡ true
    → Lists v d p (index_of p)
unfolding enum_fmt index_of
Lists-index_of v d p e k = ground (arith, same_type_iff d.type v.buffer_type)

Lists-known_format :
    (v : Video) (d : FmtDesc) (p : PixelFormat) (i : ℕ) → Lists v d p i → known_format p ≡ true
unfolding enum_fmt
Lists-known_format v d p zero h = ground arith
Lists-known_format v d p (suc zero) h = ground arith
Lists-known_format v d p (suc (suc zero)) h = ground arith
Lists-known_format v d p (suc (suc (suc i))) h = ground arith

-- The pixel formats that `enum_fmt` lists are those that `try_fmt` accepts, on a device whose buffer
-- type is known and for a format of that type.
pub enum_fmt-try_fmt :
    (v : Video) (f : Format) (d : FmtDesc)
    → known_type v.buffer_type ≡ true
    → f.type ≡ v.buffer_type
    → d.type ≡ v.buffer_type
    → (try_fmt v f ≡ success) ↔ (
        (i : ℕ) × ((enum_fmt v (record d { index = i })).1 ≡ success)
        × ((enum_fmt v (record d { index = i })).0.pixelformat ≡ f.pixelformat))
enum_fmt-try_fmt v f d known tf td = (
  λ ok.
      let h = Lists-index_of v d f.pixelformat td (((try_fmt_iff v f).0.0 ok).2) in
      (index_of f.pixelformat, h.0, h.1),
  λ (i, ok, e). (try_fmt_iff v f).0.1 (tf, known, Lists-known_format v d f.pixelformat i (ok, e)),
)

-- An input can be selected exactly on a receiving device and if it is input 0, which is then the
-- current one; a refused selection changes nothing. An output likewise on a transmitting device. So no
-- device takes both.
pub s_input-s_output :
    (v : Video) (i x : ℕ)
    → (((s_input v i).1 ≡ success) ↔ ((is_rx v.vfl_dir ≡ true) × (i ≡ 0)))
      × (((s_output v i).1 ≡ success) ↔ ((is_tx v.vfl_dir ≡ true) × (i ≡ 0)))
      × ((g_input (s_input v i).0 x ≡ (i, success)) ⊎ (s_input v i ≡ (v, neg einval)))
      × ((g_output (s_output v i).0 x ≡ (i, success)) ⊎ (s_output v i ≡ (v, neg einval)))
      × ¬ (((s_input v i).1 ≡ success) × ((s_output v i).1 ≡ success))
unfolding s_input s_output g_input g_output
s_input-s_output v i x = ground arith

-- Streaming parameters of the device's buffer type are stored and read back; others are refused and
-- change nothing.
pub g_parm-s_parm :
    (v : Video) (p q : StreamParm)
    → q.type ≡ v.buffer_type
    → ((p.type ≡ v.buffer_type) × (g_parm (s_parm v p).0 q ≡ (p, success)))
      ⊎ ((p.type ≢ v.buffer_type) × (s_parm v p ≡ (v, neg einval)) × (g_parm v p ≡ (p, neg einval)))
unfolding s_parm g_parm
g_parm-s_parm v p q e =
    ground (arith, same_type_iff p.type v.buffer_type, same_type_iff q.type v.buffer_type)
