-- ===== src/Qdmabuf/Export/Outcomes.antt =====
-- What an allocation leaves held, and what it returns.
use v4l2_tuto.Prelude.{true, false, not, ◌&&◌, if◌then◌else◌, ◌≡◌, ◌⊎◌, arith}
use v4l2_tuto.Kernel.{einval, enomem, Ret, neg, success, is_set, is_neg}
use v4l2_tuto.Qdmabuf.Ledger.{
  buffer, device_ref, page_array, pages, sg_table, mapping, memory, sgt_base, Ledger, nothing, take,
  returned, double_free,
}
use v4l2_tuto.Qdmabuf.Export.{
  SgCalls, alloc_dma_sg, ContigCalls, alloc_dma_contig, VmallocCalls, alloc_vmalloc,
}

-- Every call before the descriptor is made succeeds.
pub record SgBuilt (c : SgCalls) : Type 0 where
  pub kzalloc : c.kzalloc ≡ true
  pub get_device : c.get_device ≡ true
  pub kvmalloc_array : c.kvmalloc_array ≡ true
  pub alloc_compacted : is_set c.alloc_compacted ≡ false
  pub alloc_table : is_set c.alloc_table ≡ false

-- What a finished scatter-gather buffer holds.
abbrev pub sg_held : Ledger
sg_held =
    take mapping
      (take sg_table (take pages (take page_array (take device_ref (take buffer nothing)))))

-- The code of the first call that fails.
abbrev pub sg_failure : SgCalls → Ret
sg_failure c =
    if not c.kzalloc
    then neg enomem
    else if not c.get_device
    then neg einval
    else if not c.kvmalloc_array
    then neg enomem
    else if is_set c.alloc_compacted
    then c.alloc_compacted
    else c.alloc_table

-- A scatter-gather allocation ends in one of five ways. Before the mapping, the first call that fails gives
-- the error code, and nothing is left held. A failed mapping leaves nothing held either, but up to kernel
-- 5.10.120 the result is 0. If the export fails, its code is returned and the DMA mapping stays. If no
-- descriptor is to be had, the buffer is freed twice. Otherwise the descriptor is returned and the buffer
-- is complete.
pub alloc_dma_sg_outcomes :
    (c : SgCalls)
    → (¬ SgBuilt c × (alloc_dma_sg c ≡ returned nothing (sg_failure c)))
      ⊎ (SgBuilt c
          × (alloc_dma_sg c ≡ (
              if not c.mapped
              then returned nothing (if c.legacy then success else neg c.map_error)
              else if is_neg c.export
              then returned (take mapping nothing) c.export
              else if is_neg c.fd
              then double_free
              else returned sg_held c.fd)))
unfolding alloc_dma_sg
alloc_dma_sg_outcomes c = ground arith

-- Every call before the descriptor is made succeeds.
pub record ContigBuilt (c : ContigCalls) : Type 0 where
  pub kzalloc : c.kzalloc ≡ true
  pub get_device : c.get_device ≡ true
  pub dma_alloc : c.dma_alloc ≡ true
  pub kmalloc : c.kmalloc ≡ true
  pub get_sgtable : is_neg c.get_sgtable ≡ false
  pub export : is_neg c.export ≡ false

-- What a finished contiguous buffer holds.
abbrev pub contig_held : Ledger
contig_held = take sg_table (take sgt_base (take memory (take device_ref (take buffer nothing))))

-- The code of the first call that fails.
abbrev pub contig_failure : ContigCalls → Ret
contig_failure c =
    if not c.kzalloc
    then neg enomem
    else if not c.get_device
    then neg einval
    else if not c.dma_alloc
    then neg enomem
    else if not c.kmalloc
    then neg enomem
    else if is_neg c.get_sgtable
    then c.get_sgtable
    else c.export

-- A contiguous allocation: the first call that fails before the descriptor is made gives the error code,
-- and nothing is left held. If no descriptor is to be had, the buffer is freed twice. Otherwise the
-- descriptor is returned and the buffer is complete.
pub alloc_dma_contig_outcomes :
    (c : ContigCalls)
    → (¬ ContigBuilt c × (alloc_dma_contig c ≡ returned nothing (contig_failure c)))
      ⊎ (ContigBuilt c
          × (alloc_dma_contig c ≡ (if is_neg c.fd then double_free else returned contig_held c.fd)))
unfolding alloc_dma_contig
alloc_dma_contig_outcomes c = ground arith

-- An allocation from `vmalloc_user`: a failure before the descriptor is made gives its code and leaves
-- nothing held, a failure to make it frees the buffer twice, and otherwise the descriptor is returned and
-- the buffer is complete.
pub alloc_vmalloc_outcomes :
    (c : VmallocCalls)
    → alloc_vmalloc c ≡ (
        if not (c.kzalloc && c.vmalloc)
        then returned nothing (neg enomem)
        else if is_neg c.export
        then returned nothing c.export
        else if is_neg c.fd
        then double_free
        else returned (take memory (take buffer nothing)) c.fd)
unfolding alloc_vmalloc
alloc_vmalloc_outcomes c = ground arith
