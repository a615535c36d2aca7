-- ===== src/QdmabufCtl/Mappings.antt =====
-- On samples/02_qdmabuf-ctl/main.cpp: what it closes, and what it unmaps.
use v4l2_tuto.Prelude.{◌≡◌, ◌<◌, ◌⊎◌, some, [], map, reverse, length, arith}
use v4l2_tuto.DeferredTasks.{flush}
use v4l2_tuto.QdmabufCtl.{
  Session, Calls, alloc_loop, info_loop, map_loop, unmap_loop, finish_alloc, run,
}

-- On a session that has no mappings, the four calls of `munmap` undo the mappings that were made, in their order,
-- or there are more of them than mappings were made.
pub map_loop-unmap_loop :
    (c : Calls) (s : Session)
    → s.mapped ≡ []
    → s.unmapped ≡ []
    → let t = unmap_loop 4 0 (map_loop c 4 0 s) in
      (t.unmapped ≡ map some t.mapped) ⊎ (length t.mapped < length t.unmapped)
unfolding map_loop unmap_loop
map_loop-unmap_loop c s e f = ground (arith, e, f)

-- Whatever the calls return, the program closes each descriptor that it was given, the last first.
pub run-closed_all : (c : Calls) → (run c).closed ≡ reverse (run c).given
unfolding run alloc_loop finish_alloc info_loop map_loop unmap_loop flush
run-closed_all c = ground arith
