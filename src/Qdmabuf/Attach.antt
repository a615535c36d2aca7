-- ===== src/Qdmabuf/Attach.antt =====
-- The attachments of modules/qdmabuf/dmabuf_exp_dma_sg.c and modules/qdmabuf/dmabuf_exp_dma_contig.c, which
-- are alike: each importer gets a scatter table of its own, which is mapped for it on demand. What the
-- kernel's calls return is an argument.
pub mod Mapping
pub mod Vmalloc
use v4l2_tuto.Prelude.{
  ℕ, Bool, true, false, not, Option, none, some, List, [], ◌∷◌, length, if◌then◌else◌,
}
use v4l2_tuto.Kernel.{Errno, enomem, eio, Ret, neg, success, is_set}

-- `enum dma_data_direction`.
pub data Direction : Type 0 where
  bidirectional to_device from_device dma_none : Direction

abbrev pub same_direction : Direction → Direction → Bool
same_direction bidirectional bidirectional = true
same_direction to_device to_device = true
same_direction from_device from_device = true
same_direction dma_none dma_none = true
same_direction _ _ = false

-- `struct scatterlist`; the address is what a DMA mapping fills in.
pub record Entry : Type 0 where
  pub page : ℕ
  pub length : ℕ
  pub offset : ℕ
  pub dma_address : ℕ

-- `struct exp_*_attachment`, and the DMA mappings of its table that are in force.
pub record Attachment : Type 0 where
  pub table : List Entry
  pub nents : ℕ
  pub dma_dir : Direction
  pub mappings : List Direction

-- The loop that copies the buffer's table with `sg_set_page`.
unfoldable pub copy_entries : List Entry → List Entry
copy_entries [] = []
copy_entries (e ∷ es) =
    record { page = e.page; length = e.length; offset = e.offset; dma_address = 0 }
    ∷ copy_entries es

-- `exp_*_attach`: what becomes `dbuf_attach->priv`, and the result.
unfoldable pub attach :
    (kzalloc : Bool) → (alloc_table : Ret) → List Entry → Option Attachment × Ret
unfolding copy_entries
attach kzalloc alloc_table buffer =
    if not kzalloc
    then (none, neg enomem)
    else if is_set alloc_table
    then (none, alloc_table)
    else (
      some (record {
        table = copy_entries buffer;
        nents = length buffer;
        dma_dir = dma_none;
        mappings = [];
      }),
      success,
    )

-- `dma_unmap_sg_attrs` or `dma_unmap_sgtable` ends a mapping of that direction, if there is one.
unfoldable pub unmap : Direction → List Direction → List Direction
unmap d [] = []
unmap d (m ∷ ms) = if same_direction d m then ms else m ∷ unmap d ms

-- What `exp_*_map_dma_buf` returns: a null pointer, the table, or an error pointer.
pub data Mapped : Type 0 where
  null table : Mapped
  err_ptr : Errno → Mapped

-- `release any previous cache`.
release_previous : Attachment → Attachment
unfolding unmap
release_previous a =
    if same_direction a.dma_dir dma_none
    then a
    else record a { dma_dir = dma_none; mappings = unmap a.dma_dir a.mappings }

-- What `dma_map_sgtable` writes into the table: addresses for its first entries.
pub write_addresses : List ℕ → List Entry → List Entry
write_addresses [] es = es
write_addresses (n ∷ ns) [] = []
write_addresses (n ∷ ns) (e ∷ es) = record e { dma_address = n } ∷ write_addresses ns es

-- The attempt to map, by the call of kernels after 5.10.120; `mapped` are the addresses that it writes, if it succeeds.
map_table : Option (List ℕ) → Direction → Attachment → Attachment × Mapped
unfolding write_addresses
map_table none d a = (a, err_ptr eio)
map_table (some ns) d a = (
  record a {
    table = write_addresses ns a.table;
    nents = length ns;
    dma_dir = d;
    mappings = d ∷ a.mappings;
  },
  table,
)

-- `exp_*_map_dma_buf` on an attachment.
unfoldable pub map_attachment : Option (List ℕ) → Direction → Attachment → Attachment × Mapped
unfolding release_previous map_table
map_attachment mapped d a =
    if same_direction a.dma_dir d then (a, table) else map_table mapped d (release_previous a)

-- `exp_*_map_dma_buf` on `db_attach->priv`.
unfoldable pub map_dma_buf :
    Option (List ℕ) → Direction → Option Attachment → Option Attachment × Mapped
unfolding map_attachment
map_dma_buf mapped d none = (none, null)
map_dma_buf mapped d (some a) = let (a', r) = map_attachment mapped d a in (some a', r)

-- `exp_*_detach`: the mappings that are left in force when the attachment is freed.
unfoldable pub detach : Option Attachment → Option (List Direction)
detach none = none
detach (some a) =
    some (if same_direction a.dma_dir dma_none then a.mappings else unmap a.dma_dir a.mappings)
