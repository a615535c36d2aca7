-- ===== src/Qdmabuf/Refs.antt =====
-- modules/qdmabuf/dmabuf_exp.c, and the `mmap`, `release` and `buffer_put` operations of the three
-- exporters: who keeps a buffer alive. What the kernel's mapping calls return is an argument.
pub mod Alive
use v4l2_tuto.Prelude.{ℕ, zero, suc, Option, none, some, List, if◌then◌else◌}
use v4l2_tuto.Kernel.{Ret, success, is_set}
use v4l2_tuto.Qdmabuf.Ledger.{Resource, Ledger, release_all}
use v4l2_tuto.Qdmabuf.Export.{sg_put, contig_put, vmalloc_put}

pub data Exporter : Type 0 where
  dma_sg dma_contig vmalloc : Exporter

-- What the last reference releases.
abbrev pub last_put : Exporter → List Resource
last_put dma_sg = sg_put
last_put dma_contig = contig_put
last_put vmalloc = vmalloc_put

-- `refcount`, and what the buffer holds.
pub record Shared : Type 0 where
  pub refcount : ℕ
  pub held : Ledger

drop_last : ℕ → Option Ledger → Option Shared
drop_last n none = none
drop_last n (some l) = some (record { refcount = n; held = l })

-- `exp_*_buffer_put`; `none` is a reference that is not there, or a resource freed twice.
pub buffer_put : Exporter → Shared → Option Shared
unfolding drop_last
buffer_put k s = elim s.refcount [
  | zero ↦ none
  | suc n ↦ elim n [
    | zero ↦ drop_last 0 (release_all (last_put k) s.held)
    | suc m ↦ some (record s { refcount = suc m })
  ]
]

-- `dmabuf_exp_vm_open`; `none` is the use of a buffer that is gone.
pub vm_open : Shared → Option Shared
vm_open s = elim s.refcount [ zero ↦ none | suc n ↦ some (record s { refcount = suc (suc n) }) ]

-- `dmabuf_exp_vm_close` and `exp_*_dma_buf_release`.
pub vm_close : Exporter → Shared → Option Shared
unfolding buffer_put
vm_close k s = buffer_put k s

pub dma_buf_release : Exporter → Shared → Option Shared
unfolding buffer_put
dma_buf_release k s = buffer_put k s

-- `exp_*_mmap` on a buffer.
pub mmap : (mapped : Ret) → Shared → Option Shared × Ret
unfolding vm_open
mmap mapped s = if is_set mapped then (some s, mapped) else (vm_open s, success)
