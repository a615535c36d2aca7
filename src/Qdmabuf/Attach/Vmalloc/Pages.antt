-- ===== src/Qdmabuf/Attach/Vmalloc/Pages.antt =====
-- On the loop of `exp_vmalloc_attach` in modules/qdmabuf/dmabuf_exp_vmalloc.c: the table that it builds.
use v4l2_tuto.Prelude.{
  ℕ, zero, suc, ◌+◌, ◌*◌, ◌<◌, ◌≡◌, ◌∙◌, refl, sym, ap, subst, Option, none, some, List, [], ◌∷◌,
  length, get_elem?, arith, Option-cases, inl, inr,
}
use v4l2_tuto.Qdmabuf.Attach.{Entry}
use v4l2_tuto.Qdmabuf.Attach.Vmalloc.{vmalloc_pages, whole_page}

-- A table of `n` entries, one for each whole page from `vaddr` on.
pub record IsVmalloc (page : ℕ → Option ℕ) (n vaddr : ℕ) (es : List Entry) : Type 0 where
  pub entries : length es ≡ n
  pub each :
      (i : ℕ)
      → i < n
      → (p : ℕ) × (page (vaddr + i * 4096) ≡ some p) × (get_elem? es i ≡ some (whole_page p))

IsVmalloc-cons :
    (page : ℕ → Option ℕ) (p n vaddr : ℕ) (es : List Entry)
    → page vaddr ≡ some p
    → IsVmalloc page n (vaddr + 4096) es
    → IsVmalloc page (suc n) vaddr (whole_page p ∷ es)
IsVmalloc-cons page p n vaddr es e t = record { entries = omega (arith, t.entries); each = each }
  where
    each :
        (i : ℕ)
        → i < suc n
        → (q : ℕ) × (page (vaddr + i * 4096) ≡ some q)
          × (get_elem? (whole_page p ∷ es) i ≡ some (whole_page q))
    each zero lt = (p, ap page (omega arith) ∙ e, refl)
    each (suc i) lt = let (q, f, g) = t.each i (omega arith) in (q, ap page (omega arith) ∙ f, g)

added_none :
    (page : ℕ → Option ℕ) (n vaddr : ℕ) (es : List Entry)
    → page vaddr ≡ none
    → vmalloc_pages page (suc n) vaddr ≡ some es
    → ⊥
unfolding vmalloc_pages
added_none page n vaddr es e h = ground arith

added :
    (page : ℕ → Option ℕ) (n vaddr p : ℕ) (es : List Entry)
    → page vaddr ≡ some p
    → vmalloc_pages page (suc n) vaddr ≡ some es
    → (fs : List Entry) × (vmalloc_pages page n (vaddr + 4096) ≡ some fs) × (es ≡ whole_page p ∷ fs)
unfolding vmalloc_pages
added page n vaddr p es e h = elim (Option-cases (vmalloc_pages page n (vaddr + 4096))) [
  | inl f ↦ absurd (ground (arith, e, f, h))
  | inr (fs, f) ↦ (fs, f, ground (arith, e, f, h))
]

-- What a loop that finds all its pages has built.
pub vmalloc_pages-IsVmalloc :
    (page : ℕ → Option ℕ) (n vaddr : ℕ) (es : List Entry)
    → vmalloc_pages page n vaddr ≡ some es
    → IsVmalloc page n vaddr es
unfolding vmalloc_pages
vmalloc_pages-IsVmalloc page zero vaddr [] h = record {
  entries = refl;
  each = λ i lt. absurd (omega (arith, lt));
}
vmalloc_pages-IsVmalloc page zero vaddr (e ∷ es) h = cc
vmalloc_pages-IsVmalloc page (suc n) vaddr es h = elim (Option-cases (page vaddr)) [
  | inl e ↦ absurd (added_none page n vaddr es e h)
  | inr (p, e) ↦
      let (fs, f, g) = added page n vaddr p es e h in
      subst (IsVmalloc page (suc n) vaddr) (sym g)
        (IsVmalloc-cons page p n vaddr fs e (vmalloc_pages-IsVmalloc page n (vaddr + 4096) fs f))
]
