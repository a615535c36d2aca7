-- ===== src/Qvio/Scatter/Cover.antt =====
-- On the scatter table that `__buf_init` of modules/qvio/queue.c builds: what it covers.
use native.Mathlib.Omega.{div_any}
use v4l2_tuto.Prelude.{
  ◌⊎◌, sym, subst, ◌*◌, ℕ, zero, suc, ◌+◌, ◌-◌, ◌^◌, ◌≤◌, true, ◌==◌, Option, none, some, List, [],
  ◌∷◌, ◌≡◌, length, arith, Option-cases, Bool-cases, inl, inr, refl, ap,
}
use v4l2_tuto.Qvio.Scatter.{
  set_table, Segment, PageTable, chunk, scatter, num_pages, vmalloc_dma_map_sg, mmap, Table,
  buf_init, add_segment,
}
use v4l2_tuto.Kernel.{Ret, success, is_set, Align, align}

abbrev pub total : List Segment → ℕ
total [] = 0
total (e ∷ es) = e.length + total es

-- The segments lie one behind the other from `vaddr` on, each within one page.
abbrev pub Follows : ℕ → PageTable → ℕ → List Segment → Type 0
Follows shift page vaddr [] = Unit {0}
Follows shift page vaddr (e ∷ es) =
    (page vaddr ≡ some e.page) × (e.length ≤ 2 ^ shift) × Follows shift page (vaddr + e.length) es

-- What the table of `size` bytes at `vaddr` is, in `n` entries.
pub record Covers (shift : ℕ) (page : PageTable) (n vaddr size : ℕ) (es : List Segment)
    : Type 0 where
  pub follows : Follows shift page vaddr es
  pub entries : length es ≡ n
  pub bytes : total es ≡ size

add_segment-some :
    (x : Segment) (o : Option (List Segment)) (es : List Segment)
    → add_segment x o ≡ some es
    → (rest : List Segment) × (o ≡ some rest) × (es ≡ x ∷ rest)
unfolding add_segment
add_segment-some x none es e = absurd (ground arith)
add_segment-some x (some rest) es e = (rest, refl, ground arith)

-- One round of the loop.
scatter-suc :
    (shift : ℕ) (page : PageTable) (n vaddr size : ℕ) (es : List Segment)
    → scatter shift page (suc n) vaddr size ≡ some es
    → (p : ℕ) × (rest : List Segment) × (page vaddr ≡ some p)
      × (scatter shift page n (vaddr + chunk shift size) (size - chunk shift size) ≡ some rest)
      × (es ≡ record { page = p; length = chunk shift size } ∷ rest)
unfolding scatter
scatter-suc shift page n vaddr size es e = elim (Option-cases (page vaddr)) [
  | inl h ↦ absurd (ground arith)
  | inr (p, h) ↦
      let t =
        add_segment-some (record { page = p; length = chunk shift size })
          (scatter shift page n (vaddr + chunk shift size) (size - chunk shift size)) es
          (ground arith) in
      (p, t.0, h, t.1, t.2)
]

scatter-zero :
    (shift : ℕ) (page : PageTable) (vaddr size : ℕ) (es : List Segment)
    → scatter shift page 0 vaddr size ≡ some es
    → [] ≡ es
unfolding scatter
scatter-zero shift page vaddr size es e = ground arith

suc_mul : (n m : ℕ) → suc n * m ≡ m + n * m
suc_mul n m = omega arith

scatter-Covers :
    (shift : ℕ) (page : PageTable) (n vaddr size : ℕ) (es : List Segment)
    → size ≤ n * 2 ^ shift
    → scatter shift page n vaddr size ≡ some es
    → Covers shift page n vaddr size es
scatter-Covers shift page zero vaddr size es h e =
    subst (λ l. Covers shift page 0 vaddr size l) (scatter-zero shift page vaddr size es e)
      (record { follows = tt; entries = refl; bytes = omega arith })
scatter-Covers shift page (suc n) vaddr size es h e =
    let s = scatter-suc shift page n vaddr size es e in
    let ih =
      scatter-Covers shift page n (vaddr + chunk shift size) (size - chunk shift size) s.1
        (ground (arith, suc_mul n (2 ^ shift))) s.3 in
    subst (λ l. Covers shift page (suc n) vaddr size l) (sym s.4)
      (record {
        follows = (s.2, ground arith, ih.follows);
        entries = ap suc ih.entries;
        bytes = ground (arith, ih.bytes);
      })

module _ ⦃al : Align⦄ where
  num_pages-ge :
      (shift size : ℕ) → size + 2 ^ shift ≤ 2 ^ 32 → size ≤ num_pages shift size * 2 ^ shift
  num_pages-ge shift size fits = omega (
    arith,
    div_any (align size (2 ^ shift)) (2 ^ shift),
    al.align-mod size shift fits,
    al.align-ge size shift fits,
  )

  -- A buffer in kernel memory, of a size whose rounding up to whole pages fits an `int`, is either refused and
  -- keeps no table, or accepted with a table that covers it: the segments lie one behind the other from
  -- `vaddr` on, each on the page that `vmalloc_to_page` gives and within its length, one for each page, and
  -- of exactly `size` bytes in all.
  pub buf_init-Covers :
      (shift : ℕ) (page : PageTable) (alloc_table : Ret) (nents vaddr size : ℕ) (t : Table)
      → size + 2 ^ shift ≤ 2 ^ 31
      → (((buf_init shift page alloc_table nents vaddr size mmap t).0.sgt ≡ none)
          × (is_set (buf_init shift page alloc_table nents vaddr size mmap t).1 ≡ true))
        ⊎ ((es : List Segment) × (buf_init shift page alloc_table nents vaddr size mmap t
              ≡ (record { sgt = some es; is_bidirectional = true }, success))
            × Covers shift page (num_pages shift size) vaddr size es)
  unfolding buf_init vmalloc_dma_map_sg set_table
  buf_init-Covers shift page alloc_table nents vaddr size t fits =
      elim (Bool-cases (is_set alloc_table)) [
        | inl bad ↦ inl (ground arith)
        | inr fine ↦ elim (Option-cases (scatter shift page (num_pages shift size) vaddr size)) [
          | inl h ↦ inl (ground arith)
          | inr (es, h) ↦ elim (Bool-cases (nents == 0)) [
            | inl empty ↦ inl (ground arith)
            | inr mapped ↦ inr (
              es,
              ground arith,
              scatter-Covers _ _ _ _ _ es (num_pages-ge shift size (omega (arith, fits))) h,
            )
          ]
        ]
      ]
