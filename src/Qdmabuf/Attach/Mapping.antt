-- ===== src/Qdmabuf/Attach/Mapping.antt =====
-- On the attachments of modules/qdmabuf/dmabuf_exp_dma_sg.c: the mapping in force, and the table.
use v4l2_tuto.Prelude.{
  ap, ◌∙◌, ◌↔◌, ℕ, true, Option, none, some, List, [], ◌∷◌, if◌then◌else◌, ◌≡◌, ◌≢◌, ◌⊎◌, refl,
  arith, map,
}
use v4l2_tuto.Kernel.{eio, success}
use v4l2_tuto.Qdmabuf.Attach.{
  Direction, bidirectional, to_device, from_device, dma_none, same_direction, Entry, Attachment,
  copy_entries, write_addresses, attach, unmap, table, err_ptr, map_attachment, detach,
}

same_direction_iff : (a b : Direction) → (same_direction a b ≡ true) ↔ (a ≡ b)
same_direction_iff bidirectional b = ground arith
same_direction_iff to_device b = ground arith
same_direction_iff from_device b = ground arith
same_direction_iff dma_none b = ground arith

-- `dma_dir` tells the mapping that is in force: none at all, or one of that direction.
pub record Consistent (a : Attachment) : Type 0 where
  pub in_force : a.mappings ≡ (if same_direction a.dma_dir dma_none then [] else a.dma_dir ∷ [])

-- The pages of a table, with lengths and offsets.
abbrev pub pages_of : List Entry → List (ℕ × ℕ × ℕ)
pages_of = map (λ e. (e.page, e.length, e.offset))

write_addresses-same :
    (ns : List ℕ) (es : List Entry) → pages_of (write_addresses ns es) ≡ pages_of es
unfolding write_addresses
write_addresses-same [] es = refl
write_addresses-same (n ∷ ns) [] = refl
write_addresses-same (n ∷ ns) (e ∷ es) =
    ap (λ l. (e.page, e.length, e.offset) ∷ l) (write_addresses-same ns es)

-- Mapping in a proper direction keeps the attachment consistent, and the pages, lengths and offsets of its table as
-- they were. If it succeeds
-- the table is mapped in that direction and no other. It fails only when it asks for another direction
-- than the one in force and the kernel refuses; then nothing is mapped.
pub map_attachment-Consistent :
    (mapped : Option (List ℕ)) (d : Direction) (a : Attachment)
    → d ≢ dma_none
    → Consistent a
    → let r = map_attachment mapped d a in
      Consistent r.0
      × (pages_of r.0.table ≡ pages_of a.table)
      × (((r.1 ≡ table) × (r.0.mappings ≡ d ∷ []))
          ⊎ ((r.1 ≡ err_ptr eio) × (mapped ≡ none) × (a.dma_dir ≢ d) × (r.0.mappings ≡ [])))
unfolding map_attachment
map_attachment-Consistent none d a proper v = ground (
  arith,
  same_direction_iff a.dma_dir d,
  same_direction_iff a.dma_dir dma_none,
  same_direction_iff a.dma_dir a.dma_dir,
  same_direction_iff d d,
  same_direction_iff d dma_none,
)
map_attachment-Consistent (some ns) d a proper v = ground (
  arith,
  write_addresses-same ns a.table,
  same_direction_iff a.dma_dir d,
  same_direction_iff a.dma_dir dma_none,
  same_direction_iff a.dma_dir a.dma_dir,
  same_direction_iff d d,
  same_direction_iff d dma_none,
)

pub map_all : List (Option (List ℕ) × Direction) → Attachment → Attachment
map_all [] a = a
map_all ((mapped, d) ∷ ms) a = map_all ms (map_attachment mapped d a).0

abbrev pub Proper : List (Option (List ℕ) × Direction) → Type 0
Proper [] = Unit {0}
Proper ((mapped, d) ∷ ms) = (d ≢ dma_none) × Proper ms

pub map_all-Consistent :
    (ms : List (Option (List ℕ) × Direction)) (a : Attachment)
    → Proper ms
    → Consistent a
    → Consistent (map_all ms a) × (pages_of (map_all ms a).table ≡ pages_of a.table)
unfolding map_all
map_all-Consistent [] a proper v = (v, refl)
map_all-Consistent ((mapped, d) ∷ ms) a proper v =
    let once = map_attachment-Consistent mapped d a proper.0 v in
    let rest = map_all-Consistent ms (map_attachment mapped d a).0 proper.1 once.0 in
    (rest.0, rest.1 ∙ once.1)

pub detach-Consistent : (a : Attachment) → Consistent a → detach (some a) ≡ some []
unfolding detach unmap
detach-Consistent a v =
    ground (arith, same_direction_iff a.dma_dir dma_none, same_direction_iff a.dma_dir a.dma_dir)

pub copy_entries-same : (es : List Entry) → pages_of (copy_entries es) ≡ pages_of es
unfolding copy_entries
copy_entries-same [] = refl
copy_entries-same (e ∷ es) = ap (λ l. (e.page, e.length, e.offset) ∷ l) (copy_entries-same es)

-- An importer that attaches gets a copy of the buffer's pages. Whatever it maps afterwards, in proper
-- directions and with any outcome, those pages stay, and detaching ends every mapping.
pub detach-attach :
    (buffer : List Entry) (ms : List (Option (List ℕ) × Direction)) (a : Attachment)
    → Proper ms
    → (attach true success buffer).0 ≡ some a
    → (detach (some (map_all ms a)) ≡ some []) × (pages_of (map_all ms a).table ≡ pages_of buffer)
unfolding attach
detach-attach buffer ms a proper e =
    let v : Consistent a = record { in_force = ground arith } in
    let t : a.table ≡ copy_entries buffer = ground arith in
    let h = map_all-Consistent ms a proper v in
    (detach-Consistent (map_all ms a) h.0, h.1 ∙ ap pages_of t ∙ copy_entries-same buffer)
