-- ===== src/Qdmabuf/Export.antt =====
-- `qdmabuf_dmabuf_alloc_dma_sg`, `qdmabuf_dmabuf_alloc_dma_contig` and `qdmabuf_dmabuf_alloc_vmalloc` of
-- modules/qdmabuf: the order in which they take and release what a buffer is made of. What the kernel's
-- calls return is an argument.
pub mod Outcomes
pub mod Built
use v4l2_tuto.Prelude.{Bool, true, false, not, ◌&&◌, List, [], ◌∷◌, if◌then◌else◌}
use v4l2_tuto.Kernel.{Errno, einval, enomem, Ret, neg, success, is_set, is_neg}
use v4l2_tuto.Qdmabuf.Ledger.{
  Resource, buffer, device_ref, page_array, pages, sg_table, mapping, memory, sgt_base, Ledger,
  nothing, take, Outcome, returned, unwind, put_and_unwind,
}

-- The calls of `qdmabuf_dmabuf_alloc_dma_sg`. `legacy` is a kernel up to 5.10.120, where the mapping call
-- returns a number of entries and not a code; `mapped` is whether it succeeds, and `map_error` its code
-- on later kernels.
pub record SgCalls : Type 0 where
  pub kzalloc : Bool
  pub get_device : Bool
  pub kvmalloc_array : Bool
  pub alloc_compacted : Ret
  pub alloc_table : Ret
  pub legacy : Bool
  pub mapped : Bool
  pub map_error : Errno
  pub export : Ret
  pub fd : Ret

-- `exp_dma_sg_buffer_put` on the last reference; such a buffer has no kernel mapping to remove.
abbrev pub sg_put : List Resource
sg_put = mapping ∷ sg_table ∷ pages ∷ page_array ∷ device_ref ∷ buffer ∷ []

-- The labels of the function, each with those below it.
abbrev sg_err1 : List Resource
sg_err1 = buffer ∷ []

abbrev sg_err2 : List Resource
sg_err2 = device_ref ∷ sg_err1

abbrev sg_err3 : List Resource
sg_err3 = page_array ∷ sg_err2

abbrev sg_err4 : List Resource
sg_err4 = pages ∷ sg_err3

abbrev sg_err5 : List Resource
sg_err5 = sg_table ∷ sg_err4

-- From `dma_buf_export` on.
sg_export : SgCalls → Ledger → Outcome
sg_export c l =
    if is_neg c.export
    then unwind sg_err5 l c.export
    else if is_neg c.fd
    then put_and_unwind sg_put sg_err5 l c.fd
    else returned l c.fd

-- From the mapping on. Up to 5.10.120, `ret` still holds the 0 of `sg_alloc_table_from_pages` when the
-- mapping fails.
sg_map : SgCalls → Ledger → Outcome
unfolding sg_export
sg_map c l =
    if c.mapped
    then sg_export c (take mapping l)
    else unwind sg_err5 l (if c.legacy then success else neg c.map_error)

sg_table_from_pages : SgCalls → Ledger → Outcome
unfolding sg_map
sg_table_from_pages c l =
    if is_set c.alloc_table then unwind sg_err4 l c.alloc_table else sg_map c (take sg_table l)

-- When the pages cannot be had, `exp_dma_sg_alloc_compacted` has freed those that it got.
sg_compacted : SgCalls → Ledger → Outcome
unfolding sg_table_from_pages
sg_compacted c l =
    if is_set c.alloc_compacted
    then unwind sg_err3 l c.alloc_compacted
    else sg_table_from_pages c (take pages l)

sg_array : SgCalls → Ledger → Outcome
unfolding sg_compacted
sg_array c l =
    if not c.kvmalloc_array
    then unwind sg_err2 l (neg enomem)
    else sg_compacted c (take page_array l)

sg_device : SgCalls → Ledger → Outcome
unfolding sg_array
sg_device c l =
    if not c.get_device then unwind sg_err1 l (neg einval) else sg_array c (take device_ref l)

-- `qdmabuf_dmabuf_alloc_dma_sg`.
unfoldable pub alloc_dma_sg : SgCalls → Outcome
unfolding sg_device
alloc_dma_sg c =
    if not c.kzalloc then returned nothing (neg enomem) else sg_device c (take buffer nothing)

-- The calls of `qdmabuf_dmabuf_alloc_dma_contig`.
pub record ContigCalls : Type 0 where
  pub kzalloc : Bool
  pub get_device : Bool
  pub dma_alloc : Bool
  pub kmalloc : Bool
  pub get_sgtable : Ret
  pub export : Ret
  pub fd : Ret

-- `exp_dma_contig_buffer_put` on the last reference.
abbrev pub contig_put : List Resource
contig_put = sg_table ∷ sgt_base ∷ memory ∷ device_ref ∷ buffer ∷ []

abbrev contig_err1 : List Resource
contig_err1 = buffer ∷ []

abbrev contig_err2 : List Resource
contig_err2 = device_ref ∷ contig_err1

abbrev contig_err3 : List Resource
contig_err3 = memory ∷ contig_err2

abbrev contig_err4 : List Resource
contig_err4 = sgt_base ∷ contig_err3

abbrev contig_err5 : List Resource
contig_err5 = sg_table ∷ contig_err4

contig_export : ContigCalls → Ledger → Outcome
contig_export c l =
    if is_neg c.export
    then unwind contig_err5 l c.export
    else if is_neg c.fd
    then put_and_unwind contig_put contig_err5 l c.fd
    else returned l c.fd

contig_sgtable : ContigCalls → Ledger → Outcome
unfolding contig_export
contig_sgtable c l =
    if is_neg c.get_sgtable
    then unwind contig_err4 l c.get_sgtable
    else contig_export c (take sg_table l)

contig_base : ContigCalls → Ledger → Outcome
unfolding contig_sgtable
contig_base c l =
    if not c.kmalloc then unwind contig_err3 l (neg enomem) else contig_sgtable c (take sgt_base l)

contig_memory : ContigCalls → Ledger → Outcome
unfolding contig_base
contig_memory c l =
    if not c.dma_alloc then unwind contig_err2 l (neg enomem) else contig_base c (take memory l)

contig_device : ContigCalls → Ledger → Outcome
unfolding contig_memory
contig_device c l =
    if not c.get_device
    then unwind contig_err1 l (neg einval)
    else contig_memory c (take device_ref l)

-- `qdmabuf_dmabuf_alloc_dma_contig`.
unfoldable pub alloc_dma_contig : ContigCalls → Outcome
unfolding contig_device
alloc_dma_contig c =
    if not c.kzalloc then returned nothing (neg enomem) else contig_device c (take buffer nothing)

-- The calls of `qdmabuf_dmabuf_alloc_vmalloc`.
pub record VmallocCalls : Type 0 where
  pub kzalloc : Bool
  pub vmalloc : Bool
  pub export : Ret
  pub fd : Ret

-- `exp_vmalloc_buffer_put` on the last reference.
abbrev pub vmalloc_put : List Resource
vmalloc_put = memory ∷ buffer ∷ []

abbrev vmalloc_err1 : List Resource
vmalloc_err1 = buffer ∷ []

abbrev vmalloc_err2 : List Resource
vmalloc_err2 = memory ∷ vmalloc_err1

vmalloc_export : VmallocCalls → Ledger → Outcome
vmalloc_export c l =
    if is_neg c.export
    then unwind vmalloc_err2 l c.export
    else if is_neg c.fd
    then put_and_unwind vmalloc_put vmalloc_err2 l c.fd
    else returned l c.fd

vmalloc_memory : VmallocCalls → Ledger → Outcome
unfolding vmalloc_export
vmalloc_memory c l =
    if not c.vmalloc then unwind vmalloc_err1 l (neg enomem) else vmalloc_export c (take memory l)

-- `qdmabuf_dmabuf_alloc_vmalloc`.
unfoldable pub alloc_vmalloc : VmallocCalls → Outcome
unfolding vmalloc_memory
alloc_vmalloc c =
    if not c.kzalloc then returned nothing (neg enomem) else vmalloc_memory c (take buffer nothing)
