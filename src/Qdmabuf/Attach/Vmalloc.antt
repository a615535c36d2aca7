-- ===== src/Qdmabuf/Attach/Vmalloc.antt =====
-- `exp_vmalloc_attach` of modules/qdmabuf/dmabuf_exp_vmalloc.c, whose other operations on an attachment are those
-- of the scatter-gather exporter. Pages have 4096 bytes.
pub mod Pages
use v4l2_tuto.Prelude.{
  u32, ℕ, zero, suc, ◌+◌, ◌*◌, ◌/◌, ◌<◌, ◌≡◌, Bool, true, not, Option, none, some, List, [], ◌∷◌,
  length, get_elem?, if◌then◌else◌, arith, refl, ap, ◌∙◌, subst, sym,
}
use v4l2_tuto.Kernel.{enomem, Ret, neg, success, is_set, Align, align_long}
use v4l2_tuto.Qdmabuf.Attach.{Direction, dma_none, Entry, Attachment, detach}
use v4l2_tuto.Qdmabuf.Attach.Mapping.{
  map_all, Proper, Consistent, map_all-Consistent, detach-Consistent,
}

-- The entry of `sg_set_page(sg, page, PAGE_SIZE, 0)`.
abbrev pub whole_page : ℕ → Entry
whole_page p = record { page = p; length = 4096; offset = 0; dma_address = 0 }

add_page : ℕ → Option (List Entry) → Option (List Entry)
add_page p none = none
add_page p (some es) = some (whole_page p ∷ es)

-- The `for_each_sg` loop over `n` entries; `none` is a page that is not there.
pub vmalloc_pages : (vmalloc_to_page : ℕ → Option ℕ) → (n vaddr : ℕ) → Option (List Entry)
unfolding add_page
vmalloc_pages page zero vaddr = some []
vmalloc_pages page (suc n) vaddr =
    let rest = vmalloc_pages page n (vaddr + 4096) in
    elim (page vaddr) [ none ↦ none | some p ↦ add_page p rest ]

-- `int num_pages = PAGE_ALIGN(buf->size) / PAGE_SIZE`, where the size is an `unsigned long`.
abbrev pub page_count : ⦃al : Align⦄ → ℕ → ℕ
page_count size = u32 (align_long size 4096 / 4096)

-- `exp_vmalloc_attach`.
unfoldable pub attach_vmalloc :
    ⦃al : Align⦄
    → (vmalloc_to_page : ℕ → Option ℕ) → (kzalloc : Bool) → (alloc_table : Ret) → (size vaddr : ℕ)
    → Option Attachment × Ret
unfolding vmalloc_pages
attach_vmalloc page kzalloc alloc_table size vaddr =
    if not kzalloc
    then (none, neg enomem)
    else if is_set alloc_table
    then (none, alloc_table)
    else elim (vmalloc_pages page (page_count size) vaddr) [
      | none ↦ (none, neg enomem)
      | some es ↦ (
        some (record { table = es; nents = page_count size; dma_dir = dma_none; mappings = [] }),
        success,
      )
    ]
