-- ===== src/Tests/Buffers.antt =====
-- The exporters of modules/qdmabuf at concrete inputs.
use v4l2_tuto.Prelude.{
  ℕ, Option, ◌≡◌, ◌≢◌, ◌⊎◌, ◌*◌, ◌∷◌, if◌then◌else◌, ltb, true, false, some, none, List, [], refl,
  arith, ◌&&◌,
}
use v4l2_tuto.Qdmabuf.Attach.{
  to_device, from_device, dma_none, Entry, Attachment, map_attachment, table, err_ptr,
}
use v4l2_tuto.Kernel.{success, neg, eio, enomem, einval, value}
use v4l2_tuto.Tests.{paging}
use v4l2_tuto.Qdmabuf.Pages.{Allocator, alloc_compacted}
use v4l2_tuto.Qdmabuf.Export.{SgCalls, ContigCalls, VmallocCalls}
use v4l2_tuto.Qdmabuf.Export.Built.{EndsBuilt, alloc_buffer, alloc_buffer-EndsBuilt}
use v4l2_tuto.Tests.{kernel_align}
use v4l2_tuto.Qdmabuf.Attach.Mapping.{pages_of, Consistent, map_attachment-Consistent}

-- An allocator with single pages and pairs only, six calls long.
abbrev small_blocks : Allocator
small_blocks order calls = if ltb order 2 && ltb calls 6 then some (16 * calls) else none

abbrev pub sg_no_fd : SgCalls
sg_no_fd = record {
  kzalloc = true;
  get_device = true;
  kvmalloc_array = true;
  alloc_compacted = success;
  alloc_table = success;
  legacy = false;
  mapped = true;
  map_error = einval;
  export = success;
  fd = neg enomem;
}

alloc_buffer-EndsBuilt_example :
    EndsBuilt sg_no_fd 20000 (alloc_buffer paging small_blocks sg_no_fd 20000)
alloc_buffer-EndsBuilt_example =
    alloc_buffer-EndsBuilt paging small_blocks sg_no_fd 20000 refl (omega arith)

abbrev pub contig_fine : ContigCalls
contig_fine = record {
  kzalloc = true;
  get_device = true;
  dma_alloc = true;
  kmalloc = true;
  get_sgtable = success;
  export = success;
  fd = value 5;
}

abbrev pub vmalloc_full : VmallocCalls
vmalloc_full = record { kzalloc = true; vmalloc = false; export = success; fd = value 5 }

abbrev entries : List Entry
entries =
    record { page = 7; length = 4096; offset = 0; dma_address = 0x9000 }
    ∷ record { page = 12; length = 8192; offset = 0; dma_address = 0xa000 }
    ∷ []

abbrev fresh : Attachment
fresh = record {
  table =
      record { page = 7; length = 4096; offset = 0; dma_address = 0 }
      ∷ record { page = 12; length = 8192; offset = 0; dma_address = 0 }
      ∷ [];
  nents = 2;
  dma_dir = dma_none;
  mappings = [];
}

abbrev mapped : Attachment
mapped = record fresh { dma_dir = to_device; mappings = to_device ∷ [] }

mapped_Consistent : Consistent mapped
mapped_Consistent = record { in_force = refl }

pub from_device-proper : from_device ≢ dma_none
from_device-proper e = cc

pub to_device-proper : to_device ≢ dma_none
to_device-proper e = cc

map_attachment-Consistent_example :
    let r = map_attachment none from_device mapped in
    Consistent r.0
    × (pages_of r.0.table ≡ pages_of mapped.table)
    × (((r.1 ≡ table) × (r.0.mappings ≡ from_device ∷ []))
        ⊎ ((r.1 ≡ err_ptr eio)
            × (◌≡◌ {A = Option (List ℕ)} none none)
            × (to_device ≢ from_device)
            × (r.0.mappings ≡ [])))
map_attachment-Consistent_example =
    map_attachment-Consistent none from_device mapped from_device-proper mapped_Consistent
