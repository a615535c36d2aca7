-- ===== src/Qdmabuf/Ops.antt =====
-- The `dma_buf_ops` of the three exporters of modules/qdmabuf, each with its own operations as far as they differ in
-- the model. `unmap_dma_buf` does nothing in any of them; what the kernel's calls return is an
-- argument.
pub mod Detached
use v4l2_tuto.Prelude.{ℕ, Bool, not, length, Option, none, some, List, [], if◌then◌else◌}
use v4l2_tuto.Kernel.{Ret, Align, success, neg, enomem, is_set}
use v4l2_tuto.Qdmabuf.Attach.{
  Direction, dma_none, same_direction, Entry, Attachment, Mapped, null, copy_entries, unmap, attach,
  map_attachment, map_dma_buf, detach,
}
use v4l2_tuto.Qdmabuf.Attach.Vmalloc.{attach_vmalloc}
use v4l2_tuto.Qdmabuf.Cpu.{
  CpuBuffer, dma_sg_begin_cpu_access, dma_sg_end_cpu_access, dma_contig_begin_cpu_access,
  dma_contig_end_cpu_access, vmap,
}
use v4l2_tuto.Qdmabuf.Refs.{Exporter, dma_sg, dma_contig, vmalloc, Shared, dma_buf_release, mmap}

-- What an exporter attaches: the buffer's scatter table, or its size and address with the pages behind it.
pub record Backing : Type 0 where
  pub entries : List Entry
  pub size : ℕ
  pub vaddr : ℕ
  pub vmalloc_to_page : ℕ → Option ℕ

-- What the calls of an attachment return.
pub record AttachCalls : Type 0 where
  pub kzalloc : Bool
  pub alloc_table : Ret

-- `struct dma_buf_ops`; the exporter of `vmalloc` memory has no accesses of the processor.
pub record DmaBufOps : Type 0 where
  pub attach : AttachCalls → Backing → Option Attachment × Ret
  pub detach : Option Attachment → Option (List Direction)
  pub map_dma_buf : Option (List ℕ) → Direction → Option Attachment → Option Attachment × Mapped
  pub unmap_dma_buf : Direction → Option Attachment → Option Attachment
  pub release : Shared → Option Shared
  pub begin_cpu_access : Option (Direction → CpuBuffer → CpuBuffer × Ret)
  pub end_cpu_access : Option (Direction → CpuBuffer → CpuBuffer × Ret)
  pub mmap : Ret → Shared → Option Shared × Ret
  pub vmap : CpuBuffer → Option ℕ × Ret

-- The contiguous exporter's operations.
unfoldable pub contig_attach : AttachCalls → Backing → Option Attachment × Ret
unfolding copy_entries
contig_attach c b =
    if not c.kzalloc
    then (none, neg enomem)
    else if is_set c.alloc_table
    then (none, c.alloc_table)
    else (
      some (record {
        table = copy_entries b.entries;
        nents = length b.entries;
        dma_dir = dma_none;
        mappings = [];
      }),
      success,
    )

unfoldable pub contig_detach : Option Attachment → Option (List Direction)
unfolding unmap
contig_detach none = none
contig_detach (some a) =
    some (if same_direction a.dma_dir dma_none then a.mappings else unmap a.dma_dir a.mappings)

unfoldable pub contig_map_dma_buf :
    Option (List ℕ) → Direction → Option Attachment → Option Attachment × Mapped
unfolding map_attachment
contig_map_dma_buf mapped d none = (none, null)
contig_map_dma_buf mapped d (some a) = let (a', r) = map_attachment mapped d a in (some a', r)

unfoldable pub contig_release : Shared → Option Shared
contig_release s = dma_buf_release dma_contig s

unfoldable pub contig_mmap : (mapped : Ret) → Shared → Option Shared × Ret
contig_mmap mapped s = mmap mapped s

unfoldable pub contig_vmap : CpuBuffer → Option ℕ × Ret
contig_vmap b = vmap b

-- And those of the exporter of `vmalloc` memory.
unfoldable pub vmalloc_detach : Option Attachment → Option (List Direction)
unfolding unmap
vmalloc_detach none = none
vmalloc_detach (some a) =
    some (if same_direction a.dma_dir dma_none then a.mappings else unmap a.dma_dir a.mappings)

unfoldable pub vmalloc_map_dma_buf :
    Option (List ℕ) → Direction → Option Attachment → Option Attachment × Mapped
unfolding map_attachment
vmalloc_map_dma_buf mapped d none = (none, null)
vmalloc_map_dma_buf mapped d (some a) = let (a', r) = map_attachment mapped d a in (some a', r)

unfoldable pub vmalloc_release : Shared → Option Shared
vmalloc_release s = dma_buf_release vmalloc s

unfoldable pub vmalloc_mmap : (mapped : Ret) → Shared → Option Shared × Ret
vmalloc_mmap mapped s = mmap mapped s

unfoldable pub vmalloc_vmap : CpuBuffer → Option ℕ × Ret
vmalloc_vmap b = vmap b

abbrev pub unmapped_later : Direction → Option Attachment → Option Attachment
unmapped_later d a = a

abbrev pub dma_sg_ops : DmaBufOps
dma_sg_ops = record {
  attach = λ c b. attach c.kzalloc c.alloc_table b.entries;
  detach = detach;
  map_dma_buf = map_dma_buf;
  unmap_dma_buf = unmapped_later;
  release = dma_buf_release dma_sg;
  begin_cpu_access = some dma_sg_begin_cpu_access;
  end_cpu_access = some dma_sg_end_cpu_access;
  mmap = mmap;
  vmap = vmap;
}

abbrev pub dma_contig_ops : DmaBufOps
dma_contig_ops = record {
  attach = contig_attach;
  detach = contig_detach;
  map_dma_buf = contig_map_dma_buf;
  unmap_dma_buf = unmapped_later;
  release = contig_release;
  begin_cpu_access = some dma_contig_begin_cpu_access;
  end_cpu_access = some dma_contig_end_cpu_access;
  mmap = contig_mmap;
  vmap = contig_vmap;
}

abbrev pub vmalloc_ops : ⦃al : Align⦄ → DmaBufOps
vmalloc_ops = record {
  attach = λ c b. attach_vmalloc b.vmalloc_to_page c.kzalloc c.alloc_table b.size b.vaddr;
  detach = vmalloc_detach;
  map_dma_buf = vmalloc_map_dma_buf;
  unmap_dma_buf = unmapped_later;
  release = vmalloc_release;
  begin_cpu_access = none;
  end_cpu_access = none;
  mmap = vmalloc_mmap;
  vmap = vmalloc_vmap;
}

unfoldable pub ops : ⦃al : Align⦄ → Exporter → DmaBufOps
ops dma_sg = dma_sg_ops
ops dma_contig = dma_contig_ops
ops vmalloc = vmalloc_ops
