-- ===== src/Qdmabuf/Export/Built.antt =====
-- `qdmabuf_dmabuf_alloc_dma_sg` of modules/qdmabuf/dmabuf_exp_dma_sg.c, as a whole: what it holds, with the buffer
-- that it fills with pages. What the kernel's calls return is an argument.
use v4l2_tuto.Prelude.{
  ℕ, ◌+◌, ◌*◌, ◌/◌, ◌^◌, ◌<◌, ◌≤◌, ◌≡◌, ◌∙◌, ◌⊎◌, inl, inr, sym, subst, u32, true, false, ◌&&◌, ◌∷◌,
  ◌++◌, zero, suc, not, ap, none, some, Option-cases, get_elem?, refl, List, [], reverse, length,
  if◌then◌else◌, Bool-cases, arith,
}
use mathlib.Core.List.{reverse-cons}
use v4l2_tuto.Kernel.{enomem, neg, success, is_neg, is_set, Align}
use v4l2_tuto.Qdmabuf.Ledger.{Outcome, returned, double_free}
use v4l2_tuto.Qdmabuf.Export.{SgCalls, alloc_dma_sg}
use v4l2_tuto.Qdmabuf.Export.Outcomes.{sg_held}
use v4l2_tuto.Qdmabuf.Pages
use v4l2_tuto.Qdmabuf.Pages.{Paging, Allocator, alloc_compacted}
use v4l2_tuto.Qdmabuf.Pages.Filled.{Ends, alloc_compacted-Ends}
use v4l2_tuto.Qdmabuf.Command.{buffer_size}
use v4l2_tuto.Qdmabuf.Command.Served.{buffer_size-bounds}

-- `struct exp_dma_sg_buffer`, as far as the pages go; `pages` is what `alloc_pages` gave.
pub record SgBuffer : Type 0 where
  pub size : ℕ
  pub num_pages : ℕ
  pub pages : List ℕ

-- How the function ends: what is held, the buffer, and the pages freed, in their order; or in `stuck`, with a
-- negative order asked for, a number beyond its type, or at the end of the model's fuel.
pub data Built : Type 0 where
  built : Outcome → SgBuffer → (freed : List ℕ) → Built
  stuck : Built

-- The loop that frees pages, in the label `err4` and in `exp_dma_sg_buffer_put`.
unfoldable pub free_loop : (num_pages : ℕ) → List ℕ → List ℕ
free_loop zero pages = []
free_loop (suc n) pages = elim (get_elem? pages n) [
  | none ↦ free_loop n pages
  | some p ↦ p ∷ free_loop n pages
]

-- The pages that are freed once all are there: at `err4`, which the labels above it fall through to, and before
-- that in `dma_buf_put` at `err7`.
pub freed_pages : SgCalls → SgBuffer → List ℕ
unfolding free_loop
freed_pages c b =
    let err4 : List ℕ = free_loop b.num_pages b.pages in
    if is_set c.alloc_table
    then err4
    else if not c.mapped
    then err4
    else if is_neg c.export
    then err4
    else if is_neg c.fd
    then free_loop b.num_pages b.pages ++ err4
    else []

-- From `exp_dma_sg_alloc_compacted` on.
pub fill_buffer : SgCalls → SgBuffer → Pages.Outcome → Built
unfolding freed_pages
fill_buffer c b (Pages.filled pages) =
    let o = alloc_dma_sg (record c { alloc_compacted = success }) in
    built o (record b { pages = pages }) (freed_pages c (record b { pages = pages }))
fill_buffer c b (Pages.failed pages freed) =
    built (alloc_dma_sg (record c { alloc_compacted = neg enomem })) (record b { pages = pages })
      freed
fill_buffer c b Pages.bad_order = stuck
fill_buffer c b Pages.overflow = stuck
fill_buffer c b Pages.out_of_fuel = stuck

-- `qdmabuf_dmabuf_alloc_dma_sg`, whose call of `exp_dma_sg_alloc_compacted` is its own.
unfoldable pub alloc_buffer : ⦃al : Align⦄ → Paging → Allocator → SgCalls → (len : ℕ) → Built
unfolding fill_buffer
alloc_buffer p alloc c len =
    let size : ℕ = buffer_size len in
    let b : SgBuffer = record { size = size; num_pages = u32 (size / 4096); pages = [] } in
    if c.kzalloc && c.get_device && c.kvmalloc_array
    then fill_buffer c b (alloc_compacted p alloc size)
    else built (alloc_dma_sg c) b []

-- A buffer that has all its pages, and room for the length asked for in whole pages.
pub record IsWhole (len : ℕ) (b : SgBuffer) : Type 0 where
  pub pages : length b.pages ≡ b.num_pages
  pub size : b.num_pages * 4096 ≡ b.size
  pub room : u32 len ≤ b.size
  pub least : b.size < u32 len + 4096

abbrev pub EndsBuilt : SgCalls → (len : ℕ) → Built → Type 0
EndsBuilt c len stuck = ⊥
EndsBuilt c len (built double_free b freed) =
    (is_neg c.fd ≡ true) × (freed ≡ reverse b.pages ++ reverse b.pages) × IsWhole len b
EndsBuilt c len (built (returned l ret) b freed) =
    ((l ≡ sg_held) × (ret ≡ c.fd) × (is_neg ret ≡ false) × (freed ≡ []) × IsWhole len b)
    ⊎ ((l.pages ≡ false) × (freed ≡ reverse b.pages))

-- Before the pages there is nothing to free.
early :
    (c : SgCalls) (len size : ℕ)
    → (c.kzalloc && c.get_device && c.kvmalloc_array) ≡ false
    → EndsBuilt c len (
        built
          (alloc_dma_sg c)
          (record { size = size; num_pages = u32 (size / 4096); pages = [] })
          [])
unfolding alloc_dma_sg
early c len size h = ground (arith, h)

free_loop-suc : (n x : ℕ) (xs : List ℕ) → free_loop (suc n) (x ∷ xs) ≡ free_loop n xs ++ x ∷ []
unfolding free_loop
free_loop-suc zero x xs = refl
free_loop-suc (suc n) x xs = elim (Option-cases (get_elem? xs n)) [
  | inl e ↦ rw (e, free_loop) (free_loop-suc n x xs)
  | inr (p, e) ↦ rw (e, free_loop) (ap (λ l. p ∷ l) (free_loop-suc n x xs))
]

free_loop-reverse : (pages : List ℕ) → free_loop (length pages) pages ≡ reverse pages
unfolding free_loop
free_loop-reverse [] = refl
free_loop-reverse (x ∷ xs) =
    ap (λ n. free_loop n (x ∷ xs)) {x = length (x ∷ xs)} {y = suc (length xs)} (omega arith)
    ∙ free_loop-suc (length xs) x xs
    ∙ ap (λ l. l ++ x ∷ []) (free_loop-reverse xs)
    ∙ sym (reverse-cons x xs)

-- With all pages there, what comes after keeps them or frees them.
after_filled :
    (c : SgCalls) (len : ℕ) (b : SgBuffer)
    → (c.kzalloc && c.get_device && c.kvmalloc_array) ≡ true
    → IsWhole len b
    → let o = alloc_dma_sg (record c { alloc_compacted = success }) in
      EndsBuilt c len (built o b (freed_pages c b))
unfolding alloc_dma_sg freed_pages
after_filled c len b ready w =
    rw (ap (λ n. free_loop n b.pages) (sym w.pages) ∙ free_loop-reverse b.pages)
      (ground (arith, ready, w))

after_failed :
    (c : SgCalls) (len : ℕ) (b : SgBuffer)
    → EndsBuilt c len
        (built (alloc_dma_sg (record c { alloc_compacted = neg enomem })) b (reverse b.pages))
unfolding alloc_dma_sg
after_failed c len b = ground arith

filled-EndsBuilt :
    (c : SgCalls) (len size n : ℕ) (o : Pages.Outcome)
    → (c.kzalloc && c.get_device && c.kvmalloc_array) ≡ true
    → Ends n o
    → n * 4096 ≡ size
    → u32 len ≤ size
    → size < u32 len + 4096
    → u32 (size / 4096) ≡ n
    → EndsBuilt c len
        (fill_buffer c (record { size = size; num_pages = u32 (size / 4096); pages = [] }) o)
unfolding fill_buffer
filled-EndsBuilt c len size n (Pages.filled pages) ready e whole room least count =
    after_filled c len (record { size = size; num_pages = u32 (size / 4096); pages = pages }) ready
      (record { pages = e ∙ sym count; size = rw count whole; room = room; least = least })
filled-EndsBuilt c len size n (Pages.failed pages freed) ready e whole room least count =
    rw e.0
      (after_failed c len (record { size = size; num_pages = u32 (size / 4096); pages = pages }))
filled-EndsBuilt c len size n Pages.bad_order ready e whole room least count = absurd e
filled-EndsBuilt c len size n Pages.overflow ready e whole room least count = absurd e
filled-EndsBuilt c len size n Pages.out_of_fuel ready e whole room least count = absurd e

-- The size of a buffer, in whole pages, and the pages in it.
record Sized (len size : ℕ) : Type 0 where
  whole : size / 4096 * 4096 ≡ size
  room : u32 len ≤ size
  least : size < u32 len + 4096
  count : u32 (size / 4096) ≡ size / 4096

buffer_size-Sized : ⦃al : Align⦄ (len : ℕ) → u32 len + 4096 ≤ 2 ^ 31 → Sized len (buffer_size len)
buffer_size-Sized len fits = elim (buffer_size-bounds len (omega (arith, fits))) [
  | inr (over, high) ↦ absurd (omega (arith, fits, over))
  | inl (small, room, least, aligned, same) ↦ record {
    whole = omega (arith, aligned);
    room = room;
    least = least;
    count = ground (arith, room, least, fits);
  }
]

alloc_compacted-sized :
    (p : Paging) (alloc : Allocator) (size : ℕ)
    → p.page_size ≡ 4096
    → size / 4096 * 4096 ≡ size
    → size < 2 ^ 32
    → Ends (size / 4096) (alloc_compacted p alloc size)
alloc_compacted-sized p alloc size paged whole small =
    let n : ℕ = size / 4096 in
    let e : p.page_size * n ≡ size = rw paged (omega (arith, whole)) in
    subst (λ s. Ends n (alloc_compacted p alloc s)) e
      (alloc_compacted-Ends p alloc n (omega (arith, e, small)) (omega (arith, small)))

-- Where pages have 4096 bytes and the length asked for, less multiples of 4 GiB, is at most 2 GiB less a page, a
-- scatter-gather allocation always ends, whatever the kernel's calls return. It returns its descriptor with
-- everything held and no page freed, and then the buffer has room for that length in the fewest
-- whole pages, all of which are there. Or it returns with no pages held, and has freed each page that
-- it got once, from the last to the first. Or there is no descriptor to be had, and a buffer that
-- had all its pages is freed twice, each of its pages too.
pub alloc_buffer-EndsBuilt :
    ⦃al : Align⦄ (p : Paging) (alloc : Allocator) (c : SgCalls) (len : ℕ)
    → p.page_size ≡ 4096
    → u32 len + 4096 ≤ 2 ^ 31
    → EndsBuilt c len (alloc_buffer p alloc c len)
unfolding alloc_buffer
alloc_buffer-EndsBuilt p alloc c len paged fits =
    elim (Bool-cases (c.kzalloc && c.get_device && c.kvmalloc_array)) [
      | inr e ↦ rw e (early c len (buffer_size len) e)
      | inl e ↦
          let s = buffer_size-Sized len fits in
          rw e (
            filled-EndsBuilt c len (buffer_size len) (buffer_size len / 4096) _ e
              (alloc_compacted-sized p alloc (buffer_size len) paged s.whole
                (omega (arith, s.least, fits)))
              s.whole s.room s.least s.count)
    ]
