-- ===== src/Qdmabuf/Ledger.antt =====
-- What an exporter of modules/qdmabuf holds while it builds a buffer. Releasing what is not held is a
-- double free.
use v4l2_tuto.Prelude.{Bool, true, false, Option, none, some, List, [], ◌∷◌, if◌then◌else◌}
use v4l2_tuto.Kernel.{Ret}

-- The `exp_*_buffer` structure, the reference on the device, the array of pages, the pages in it, the
-- scatter table, its DMA mapping, the memory of `dma_alloc_attrs` or `vmalloc_user`, and the structure
-- `sgt_base`.
pub data Resource : Type 0 where
  buffer device_ref page_array pages sg_table mapping memory sgt_base : Resource

pub record Ledger : Type 0 where
  pub buffer : Bool
  pub device_ref : Bool
  pub page_array : Bool
  pub pages : Bool
  pub sg_table : Bool
  pub mapping : Bool
  pub memory : Bool
  pub sgt_base : Bool

abbrev pub nothing : Ledger
nothing = record {
  buffer = false;
  device_ref = false;
  page_array = false;
  pages = false;
  sg_table = false;
  mapping = false;
  memory = false;
  sgt_base = false;
}

abbrev pub take : Resource → Ledger → Ledger
take buffer l = record l { buffer = true }
take device_ref l = record l { device_ref = true }
take page_array l = record l { page_array = true }
take pages l = record l { pages = true }
take sg_table l = record l { sg_table = true }
take mapping l = record l { mapping = true }
take memory l = record l { memory = true }
take sgt_base l = record l { sgt_base = true }

-- `none` is a double free.
abbrev pub release : Resource → Ledger → Option Ledger
release buffer l = if l.buffer then some (record l { buffer = false }) else none
release device_ref l = if l.device_ref then some (record l { device_ref = false }) else none
release page_array l = if l.page_array then some (record l { page_array = false }) else none
release pages l = if l.pages then some (record l { pages = false }) else none
release sg_table l = if l.sg_table then some (record l { sg_table = false }) else none
release mapping l = if l.mapping then some (record l { mapping = false }) else none
release memory l = if l.memory then some (record l { memory = false }) else none
release sgt_base l = if l.sgt_base then some (record l { sgt_base = false }) else none

abbrev pub release_all : List Resource → Ledger → Option Ledger
release_all [] l = some l
release_all (r ∷ rs) l = elim (release r l) [ none ↦ none | some l' ↦ release_all rs l' ]

-- How an allocation ends.
pub data Outcome : Type 0 where
  returned : Ledger → Ret → Outcome
  double_free : Outcome

-- An error label: release what it and the labels below it release, and return.
abbrev pub unwind : List Resource → Ledger → Ret → Outcome
unwind rs l ret = elim (release_all rs l) [ none ↦ double_free | some l' ↦ returned l' ret ]

-- `dma_buf_put` of the last reference, which calls the exporter's `release`, and then the labels below.
abbrev pub put_and_unwind : (released labels : List Resource) → Ledger → Ret → Outcome
put_and_unwind released labels l ret = elim (release_all released l) [
  | none ↦ double_free
  | some l' ↦ unwind labels l' ret
]
