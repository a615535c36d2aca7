-- ===== src/QvioCtl/Source/Unwind.antt =====
-- On the stack of closures of `VidSrc_Main` in samples/03_qvio-ctl/main.cpp, and what a flush of it does.
use v4l2_tuto.Prelude.{
  ℕ, zero, suc, ◌≡◌, ◌<◌, refl, sym, ◌∙◌, subst, true, some, List, [], ◌∷◌, ◌++◌, length, get_elem?,
  arith, append-snoc,
}
use v4l2_tuto.DeferredTasks.{flush}
use v4l2_tuto.QvioCtl.{Plane, MmapBuffer, zero_buffer, mapped_buffer, set_elem, is_mapped}
use v4l2_tuto.QvioCtl.Source.{World, Resource, buffer, free, clear_table, unmap_buffer}

module _ {ℓ} {A : Type ℓ} where
  get_elem?-set_elem :
      (xs : List A) (i : ℕ) (y : A) → i < length xs → get_elem? (set_elem xs i y) i ≡ some y
  get_elem?-set_elem [] i y h = absurd (omega (arith, h))
  get_elem?-set_elem (x ∷ xs) zero y h = refl
  get_elem?-set_elem (x ∷ xs) (suc i) y h = get_elem?-set_elem xs i y (omega (arith, h))

  get_elem?-set_elem_other :
      (xs : List A) (i j : ℕ) (y : A) → j < i → get_elem? (set_elem xs i y) j ≡ get_elem? xs j
  get_elem?-set_elem_other [] i j y h = refl
  get_elem?-set_elem_other (x ∷ xs) zero j y h = absurd (omega (arith, h))
  get_elem?-set_elem_other (x ∷ xs) (suc i) zero y h = refl
  get_elem?-set_elem_other (x ∷ xs) (suc i) (suc j) y h =
      get_elem?-set_elem_other xs i j y (omega (arith, h))

-- A stack of closures gives back exactly `xs`, the first first, whatever became of the table from entry `k` on.
unfoldable pub Unwinds : ℕ → List (World → World) → List MmapBuffer → List Resource → Type 0
Unwinds k fs table xs =
    (w : World)
    → ((j : ℕ) → j < k → get_elem? w.src_mbuffers j ≡ get_elem? table j)
    → let e = flush fs w in (e.freed ≡ w.freed ++ xs) × (e.broken ≡ w.broken) × (e.taken ≡ w.taken)

pub take-Unwinds :
    (k : ℕ) (fs : List (World → World)) (table : List MmapBuffer) (xs : List Resource)
    (r : Resource)
    → Unwinds k fs table xs
    → Unwinds k (free r ∷ fs) table (r ∷ xs)
unfolding Unwinds flush
take-Unwinds k fs table xs r u w h =
    let (f, b, t) = u (free r w) h in (f ∙ append-snoc w.freed r xs, b, t)

pub clear-Unwinds :
    (fs : List (World → World)) (table table' : List MmapBuffer) (xs : List Resource)
    → Unwinds 0 fs table xs
    → Unwinds 0 (clear_table ∷ fs) table' xs
unfolding Unwinds flush
clear-Unwinds fs table table' xs u w h = u (clear_table w) (λ j lt. absurd (omega (arith, lt)))

unmap_mapped :
    (k i : ℕ) (p : Plane) (w : World)
    → get_elem? w.src_mbuffers k ≡ some (mapped_buffer i p)
    → is_mapped p ≡ true
    → unmap_buffer k w ≡ record w {
      freed = w.freed ++ buffer p ∷ [];
      src_mbuffers = set_elem w.src_mbuffers k zero_buffer;
    }
unmap_mapped k i p w e m = ground (arith, e, m)

pub unmap-Unwinds :
    (k : ℕ) (fs : List (World → World)) (table : List MmapBuffer) (xs : List Resource) (i : ℕ)
    (p : Plane)
    → k < length table
    → is_mapped p ≡ true
    → Unwinds k fs table xs
    → Unwinds (suc k) (unmap_buffer k ∷ fs) (set_elem table k (mapped_buffer i p)) (buffer p ∷ xs)
unfolding Unwinds flush
unmap-Unwinds k fs table xs i p lt m u w h =
    let e = h k (omega arith) ∙ get_elem?-set_elem table k (mapped_buffer i p) lt in
    let (f, b, t) =
      u
        (record w {
          freed = w.freed ++ buffer p ∷ [];
          src_mbuffers = set_elem w.src_mbuffers k zero_buffer;
        })
        (λ j below.
          get_elem?-set_elem_other w.src_mbuffers k j zero_buffer below
          ∙ h j (omega (arith, below))
          ∙ get_elem?-set_elem_other table k j (mapped_buffer i p) below) in
    subst
      (λ v.
        let o = flush fs v in
        (o.freed ≡ w.freed ++ buffer p ∷ xs) × (o.broken ≡ w.broken) × (o.taken ≡ w.taken))
      (sym (unmap_mapped k i p w e m)) (f ∙ append-snoc w.freed (buffer p) xs, b, t)
