-- ===== src/Tests/References.antt =====
-- The reference count of a buffer at a concrete history.
use v4l2_tuto.Kernel.{success}
use v4l2_tuto.Prelude.{◌<◌, ◌≡◌, refl, true, arith}
use v4l2_tuto.Qdmabuf.Refs.{dma_contig}
use v4l2_tuto.Qdmabuf.Refs.Alive.{
  World, fresh, maps, releases, closes, Reach, starts, after_mmap, after_close, after_release,
  Alive, Reach-Alive,
}

-- Exported, mapped, the dma-buf released, and the mapping closed.
abbrev mapped_once : World
mapped_once = maps success (fresh dma_contig)

mapped_once-Reach : Reach dma_contig mapped_once
unfolding fresh
mapped_once-Reach = after_mmap (fresh dma_contig) success starts refl

one_mapping : 0 < (releases dma_contig mapped_once).mappings
unfolding fresh maps releases
one_mapping = omega arith

still_exported : mapped_once.exported ≡ true
unfolding fresh maps
still_exported = refl

Reach-Alive_example : Alive dma_contig (closes dma_contig (releases dma_contig mapped_once))
Reach-Alive_example = Reach-Alive dma_contig (closes dma_contig (releases dma_contig mapped_once)) (
    after_close (releases dma_contig mapped_once)
      (after_release mapped_once mapped_once-Reach still_exported) one_mapping)
