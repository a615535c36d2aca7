-- ===== src/QvioCtl/Table.antt =====
-- The table of mapped buffers of samples/03_qvio-ctl/main.cpp, entry by entry.
use v4l2_tuto.Prelude.{
  ◌<◌, ℕ, zero, suc, ◌+◌, ◌≡◌, refl, ap, ◌&&◌, ◌==◌, some, List, [], ◌∷◌, ◌++◌, length, get_elem?,
  if◌then◌else◌, arith,
}
use v4l2_tuto.QvioCtl.{Plane, MmapBuffer, mapped_planes, set_elem, resize, zero_buffer}

-- How often a plane stands in a list.
abbrev pub times : Plane → List Plane → ℕ
times p [] = 0
times p (q ∷ qs) =
    let rest = times p qs in
    if (p.vir_addr == q.vir_addr) && (p.length == q.length) then rest + 1 else rest

-- The planes that a table holds mapped.
abbrev pub held : List MmapBuffer → List Plane
held [] = []
held (b ∷ bs) = mapped_planes b.planes ++ held bs

pub times-append : (p : Plane) (xs ys : List Plane) → times p (xs ++ ys) ≡ times p xs + times p ys
times-append p [] ys = omega arith
times-append p (x ∷ xs) ys = ground (arith, times-append p xs ys)

pub held-set_elem :
    (p : Plane) (bs : List MmapBuffer) (i : ℕ) (b b' : MmapBuffer)
    → get_elem? bs i ≡ some b
    → times p (held (set_elem bs i b')) + times p (mapped_planes b.planes)
      ≡ times p (held bs) + times p (mapped_planes b'.planes)
held-set_elem p [] i b b' e = absurd (ground (arith, e))
held-set_elem p (c ∷ bs) zero b b' e = ground (
  arith,
  times-append p (mapped_planes b'.planes) (held bs),
  times-append p (mapped_planes b.planes) (held bs),
)
held-set_elem p (c ∷ bs) (suc i) b b' e = omega (
  arith,
  held-set_elem p bs i b b' e,
  times-append p (mapped_planes c.planes) (held bs),
  times-append p (mapped_planes c.planes) (held (set_elem bs i b')),
)

-- What `resize` cuts off.
abbrev pub dropped {ℓ} : {A : Type ℓ} → ℕ → List A → List A
dropped zero xs = xs
dropped (suc n) [] = []
dropped (suc n) (x ∷ xs) = dropped n xs

pub held-resize :
    (p : Plane) (n : ℕ) (bs : List MmapBuffer)
    → times p (held (resize n zero_buffer bs)) + times p (held (dropped n bs)) ≡ times p (held bs)
held-resize p zero bs = omega arith
held-resize p (suc n) [] = omega (arith, held-resize p n [])
held-resize p (suc n) (b ∷ bs) = omega (
  arith,
  held-resize p n bs,
  times-append p (mapped_planes b.planes) (held bs),
  times-append p (mapped_planes b.planes) (held (resize n zero_buffer bs)),
)

pub length-set_elem :
    (bs : List MmapBuffer) (i : ℕ) (b : MmapBuffer) → length (set_elem bs i b) ≡ length bs
length-set_elem [] i b = refl
length-set_elem (c ∷ bs) zero b = refl
length-set_elem (c ∷ bs) (suc i) b = ap suc (length-set_elem bs i b)

pub get_elem?-some {ℓ} :
    {A : Type ℓ} (bs : List A) (i : ℕ) → i < length bs → (b : A) × (get_elem? bs i ≡ some b)
get_elem?-some [] i h = absurd (omega (arith, h))
get_elem?-some (b ∷ bs) zero h = (b, refl)
get_elem?-some (b ∷ bs) (suc i) h = get_elem?-some bs i (omega (arith, h))
