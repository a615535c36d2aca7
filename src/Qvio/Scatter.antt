-- ===== src/Qvio/Scatter.antt =====
-- `vmalloc_dma_map_sg`, `__buf_init` and `__buf_cleanup` of modules/qvio/queue.c: the scatter table of a
-- buffer's memory. Pages have `2 ^ shift` bytes; what the kernel's calls return is an argument.
pub mod Cover
use v4l2_tuto.Prelude.{
  ℕ, zero, suc, ◌+◌, ◌-◌, ◌/◌, ◌^◌, Bool, true, false, ltb, ◌==◌, Option, none, some, List, [], ◌∷◌,
  ◌++◌, if◌then◌else◌,
}
use v4l2_tuto.Kernel.{Errno, einval, enomem, eio, Ret, neg, success, is_set, Align, align}

-- What `sg_set_page` stores; the offset is 0.
pub record Segment : Type 0 where
  pub page : ℕ
  pub length : ℕ

-- `vmalloc_to_page`.
abbrev pub PageTable : Type 0
PageTable = ℕ → Option ℕ

add_segment : Segment → Option (List Segment) → Option (List Segment)
add_segment e none = none
add_segment e (some es) = some (e ∷ es)

module _ (shift : ℕ) where
  -- `page_size` in the loop: a whole page, or what is left.
  abbrev pub chunk : ℕ → ℕ
  chunk size = if ltb (2 ^ shift) size then 2 ^ shift else size

  -- The `for_each_sg` loop over `n` entries; `none` is a page that is not there.
  pub scatter : PageTable → (n vaddr size : ℕ) → Option (List Segment)
  unfolding add_segment
  scatter page zero vaddr size = some []
  scatter page (suc n) vaddr size =
      let rest = scatter page n (vaddr + chunk size) (size - chunk size) in
      elim (page vaddr) [
        | none ↦ none
        | some p ↦ add_segment (record { page = p; length = chunk size }) rest
      ]

module _ ⦃al : Align⦄ (shift : ℕ) where
  -- `PAGE_ALIGN(size) / PAGE_SIZE`.
  abbrev pub num_pages : ℕ → ℕ
  num_pages size = align size (2 ^ shift) / 2 ^ shift

  -- The table that is left, and the result. `nents` is what `dma_map_sg` returns.
  unfoldable pub vmalloc_dma_map_sg :
      PageTable → (alloc_table : Ret) → (nents vaddr size : ℕ) → Option (List Segment) × Ret
  unfolding scatter
  vmalloc_dma_map_sg page alloc_table nents vaddr size =
      if is_set alloc_table
      then (none, alloc_table)
      else elim (scatter shift page (num_pages size) vaddr size) [
        | none ↦ (none, neg enomem)
        | some es ↦ if nents == 0 then (none, neg eio) else (some es, success)
      ]

-- `buffer->memory`, and the scatter table of a `struct qvio_queue_buffer`: `sgt` is `none` while it is not
-- allocated, `is_bidirectional` whether `dma_dir` is `DMA_BIDIRECTIONAL` rather than `DMA_NONE`.
pub data Memory : Type 0 where
  mmap userptr dmabuf : Memory

pub record Table : Type 0 where
  pub sgt : Option (List Segment)
  pub is_bidirectional : Bool

set_table : Option (List Segment) × Ret → Table × Ret
set_table (sgt, ret) =
    (record { sgt = sgt; is_bidirectional = if is_set ret then false else true }, ret)

-- `__buf_init`; `plane_size` and `vaddr` are those of plane 0.
unfoldable pub buf_init :
    ⦃al : Align⦄
    → (shift : ℕ) → PageTable
    → (alloc_table : Ret) → (nents vaddr plane_size : ℕ) → Memory
    → Table
    → Table × Ret
unfolding vmalloc_dma_map_sg set_table
buf_init shift page alloc_table nents vaddr plane_size mmap t =
    set_table (vmalloc_dma_map_sg shift page alloc_table nents vaddr plane_size)
buf_init shift page alloc_table nents vaddr plane_size userptr t = (t, neg einval)
buf_init shift page alloc_table nents vaddr plane_size dmabuf t = (t, neg einval)

-- `__buf_cleanup`.
unfoldable pub buf_cleanup : Table → Table
buf_cleanup t = record { sgt = none; is_bidirectional = false }
