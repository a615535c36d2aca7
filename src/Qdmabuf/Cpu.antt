-- ===== src/Qdmabuf/Cpu.antt =====
-- The processor's access to the buffers of the three exporters in modules/qdmabuf: `begin_cpu_access`,
-- `end_cpu_access` and `vmap` of their `dma_buf_ops`. The vmalloc exporter has no such accesses of its own.
use v4l2_tuto.Prelude.{ℕ, ◌≡◌, refl, ◌∙◌, Option, none, List, [], ◌∷◌, ◌++◌}
use v4l2_tuto.Kernel.{Ret, success}
use v4l2_tuto.Qdmabuf.Attach.{Direction}

-- `dma_sync_sg_for_cpu` and `dma_sync_sg_for_device`.
pub data Sync : Type 0 where
  for_cpu for_device : Direction → Sync

-- `vaddr` and `dma_dir` of a buffer, `none` for a null pointer, with the calls that kept its caches in step.
pub record CpuBuffer : Type 0 where
  pub vaddr : Option ℕ
  pub dma_dir : Direction
  pub syncs : List Sync

-- A buffer of `qdmabuf_dmabuf_alloc_dma_sg`.
abbrev pub new_dma_sg : Direction → CpuBuffer
new_dma_sg d = record { vaddr = none; dma_dir = d; syncs = [] }

unfoldable pub dma_sg_begin_cpu_access : Direction → CpuBuffer → CpuBuffer × Ret
dma_sg_begin_cpu_access d b = (record b { syncs = b.syncs ++ for_cpu b.dma_dir ∷ [] }, success)

unfoldable pub dma_sg_end_cpu_access : Direction → CpuBuffer → CpuBuffer × Ret
dma_sg_end_cpu_access d b = (record b { syncs = b.syncs ++ for_device b.dma_dir ∷ [] }, success)

unfoldable pub dma_contig_begin_cpu_access : Direction → CpuBuffer → CpuBuffer × Ret
dma_contig_begin_cpu_access d b = (b, success)

unfoldable pub dma_contig_end_cpu_access : Direction → CpuBuffer → CpuBuffer × Ret
dma_contig_end_cpu_access d b = (b, success)

-- The address that `vmap` hands out, with its result; the three exporters agree.
unfoldable pub vmap : CpuBuffer → Option ℕ × Ret
vmap b = (b.vaddr, success)

-- An access of the processor, from its beginning to its end.
abbrev access : Direction → CpuBuffer → CpuBuffer
access d b = (dma_sg_end_cpu_access d (dma_sg_begin_cpu_access d b).0).0

pub accesses : List Direction → CpuBuffer → CpuBuffer
accesses [] b = b
accesses (d ∷ ds) b = accesses ds (access d b)

accesses-vmap : (ds : List Direction) (b : CpuBuffer) → vmap (accesses ds b) ≡ vmap b
unfolding accesses vmap dma_sg_begin_cpu_access dma_sg_end_cpu_access
accesses-vmap [] b = refl
accesses-vmap (d ∷ ds) b = accesses-vmap ds (access d b)

vmap_null : (d : Direction) → vmap (new_dma_sg d) ≡ (none, success)
unfolding vmap
vmap_null d = refl

-- A buffer of the scatter-gather exporter never has an address: whatever accesses were made of it, `vmap`
-- succeeds and hands out a null pointer.
pub vmap-new_dma_sg :
    (d : Direction) (ds : List Direction) → vmap (accesses ds (new_dma_sg d)) ≡ (none, success)
vmap-new_dma_sg d ds = accesses-vmap ds (new_dma_sg d) ∙ vmap_null d
