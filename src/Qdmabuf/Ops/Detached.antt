-- ===== src/Qdmabuf/Ops/Detached.antt =====
-- On the `dma_buf_ops` of the three exporters of modules/qdmabuf: an importer's life.
use v4l2_tuto.Qdmabuf.Attach.Vmalloc.Pages.{IsVmalloc, vmalloc_pages-IsVmalloc}
use v4l2_tuto.Prelude.{
  ℕ, true, Option, none, some, List, [], ◌∷◌, ◌≡◌, ◌≢◌, inl, inr, refl, ap, ◌∙◌, Bool-cases,
  Option-cases,
}
use v4l2_tuto.Qdmabuf.Attach.Vmalloc.{page_count, vmalloc_pages, attach_vmalloc}
use v4l2_tuto.Qdmabuf.Attach.Mapping.{
  pages_of, copy_entries-same, map_attachment-Consistent, pages_of, Consistent, detach-Consistent,
}
use v4l2_tuto.Qdmabuf.Attach.{
  Entry, Direction, dma_none, Attachment, attach, map_attachment, map_dma_buf, detach,
}
use v4l2_tuto.Kernel.{Ret, Align, success, is_set}
use v4l2_tuto.Qdmabuf.Refs.{Exporter, dma_sg, dma_contig, vmalloc}
use v4l2_tuto.Qdmabuf.Ops.{
  Backing, AttachCalls, DmaBufOps, contig_attach, contig_detach, contig_map_dma_buf, vmalloc_detach,
  vmalloc_map_dma_buf, ops,
}

-- Calls of `map_dma_buf` and `unmap_dma_buf` by an importer.
pub data Use : Type 0 where
  maps : (mapped : Option (List ℕ)) → Direction → Use
  unmaps : Direction → Use

abbrev pub AllProper : List Use → Type 0
AllProper [] = Unit
AllProper (maps mapped d ∷ us) = (d ≢ dma_none) × AllProper us
AllProper (unmaps d ∷ us) = AllProper us

unfoldable pub uses : DmaBufOps → List Use → Option Attachment → Option Attachment
uses o [] a = a
uses o (maps mapped d ∷ us) a = uses o us (o.map_dma_buf mapped d a).0
uses o (unmaps d ∷ us) a = uses o us (o.unmap_dma_buf d a)

-- The table is that of the exporter's pages, or of the whole pages behind its addresses.
abbrev pub Backs : ⦃al : Align⦄ → Exporter → Backing → List Entry → Type 0
Backs dma_sg b es = pages_of es ≡ pages_of b.entries
Backs dma_contig b es = pages_of es ≡ pages_of b.entries
Backs vmalloc b es = IsVmalloc b.vmalloc_to_page (page_count b.size) b.vaddr es

-- How an attachment with these calls ends: it is refused with an error, or used, and nothing stays mapped.
abbrev pub Detached :
    ⦃al : Align⦄ → Exporter → Backing → List Use → Option Attachment × Ret → Type 0
Detached k b us (none, r) = is_set r ≡ true
Detached k b us (some a, r) =
    (r ≡ success)
    × Backs k b a.table
    × ((a' : Attachment) × (uses (ops k) us (some a) ≡ some a')
        × (pages_of a'.table ≡ pages_of a.table)
        × ((ops k).detach (some a') ≡ some []))

-- The operations on an attachment that is there are those of the scatter-gather exporter.
record IsAlike (o : DmaBufOps) : Type 0 where
  maps :
      (mapped : Option (List ℕ)) (d : Direction) (a : Option Attachment)
      → o.map_dma_buf mapped d a ≡ map_dma_buf mapped d a
  unmaps : (d : Direction) (a : Option Attachment) → o.unmap_dma_buf d a ≡ a
  detaches : (a : Option Attachment) → o.detach a ≡ detach a

contig_detach-detach : (a : Option Attachment) → contig_detach a ≡ detach a
unfolding contig_detach detach
contig_detach-detach none = refl
contig_detach-detach (some a) = refl

contig_map_dma_buf-map_dma_buf :
    (mapped : Option (List ℕ)) (d : Direction) (a : Option Attachment)
    → contig_map_dma_buf mapped d a ≡ map_dma_buf mapped d a
unfolding contig_map_dma_buf map_dma_buf
contig_map_dma_buf-map_dma_buf mapped d none = refl
contig_map_dma_buf-map_dma_buf mapped d (some a) = refl

vmalloc_detach-detach : (a : Option Attachment) → vmalloc_detach a ≡ detach a
unfolding vmalloc_detach detach
vmalloc_detach-detach none = refl
vmalloc_detach-detach (some a) = refl

vmalloc_map_dma_buf-map_dma_buf :
    (mapped : Option (List ℕ)) (d : Direction) (a : Option Attachment)
    → vmalloc_map_dma_buf mapped d a ≡ map_dma_buf mapped d a
unfolding vmalloc_map_dma_buf map_dma_buf
vmalloc_map_dma_buf-map_dma_buf mapped d none = refl
vmalloc_map_dma_buf-map_dma_buf mapped d (some a) = refl

ops-IsAlike : ⦃al : Align⦄ (k : Exporter) → IsAlike (ops k)
unfolding ops
ops-IsAlike dma_sg = record { maps = λ m d a. refl; unmaps = λ d a. refl; detaches = λ a. refl }
ops-IsAlike dma_contig = record {
  maps = contig_map_dma_buf-map_dma_buf;
  unmaps = λ d a. refl;
  detaches = contig_detach-detach;
}
ops-IsAlike vmalloc = record {
  maps = vmalloc_map_dma_buf-map_dma_buf;
  unmaps = λ d a. refl;
  detaches = vmalloc_detach-detach;
}

uses-Consistent :
    (o : DmaBufOps) (us : List Use) (a : Attachment)
    → IsAlike o
    → AllProper us
    → Consistent a
    → (b : Attachment) × (uses o us (some a) ≡ some b)
      × (pages_of b.table ≡ pages_of a.table)
      × Consistent b
unfolding uses map_dma_buf
uses-Consistent o [] a h p v = (a, refl, refl, v)
uses-Consistent o (maps mapped d ∷ us) a h (p, ps) v =
    let once = map_attachment-Consistent mapped d a p v in
    let (b, e, t, w) = uses-Consistent o us (map_attachment mapped d a).0 h ps once.0 in
    (b, ap (λ r. uses o us r.0) (h.maps mapped d (some a)) ∙ e, t ∙ once.1, w)
uses-Consistent o (unmaps d ∷ us) a h ps v =
    let (b, e, t, w) = uses-Consistent o us a h ps v in
    (b, ap (uses o us) (h.unmaps d (some a)) ∙ e, t, w)

-- A new attachment maps nothing; a refused one is an error.
abbrev Fresh : (List Entry → Type 0) → Option Attachment × Ret → Type 0
Fresh B (none, r) = is_set r ≡ true
Fresh B (some a, r) = (r ≡ success) × Consistent a × B a.table

attach-Fresh :
    (c : AttachCalls) (b : Backing)
    → Fresh (λ es. pages_of es ≡ pages_of b.entries) (attach c.kzalloc c.alloc_table b.entries)
unfolding attach
attach-Fresh c b = elim (Bool-cases c.kzalloc) [
  | inr e ↦ rw e refl
  | inl e ↦ elim (Bool-cases (is_set c.alloc_table)) [
    | inl f ↦ rw (e, f) f
    | inr f ↦ rw (e, f) (refl, record { in_force = refl }, copy_entries-same b.entries)
  ]
]

attach_vmalloc-Fresh :
    ⦃al : Align⦄ (c : AttachCalls) (b : Backing)
    → Fresh
        (IsVmalloc b.vmalloc_to_page (page_count b.size) b.vaddr)
        (attach_vmalloc b.vmalloc_to_page c.kzalloc c.alloc_table b.size b.vaddr)
unfolding attach_vmalloc
attach_vmalloc-Fresh c b = elim (Bool-cases c.kzalloc) [
  | inr e ↦ rw e refl
  | inl e ↦ elim (Bool-cases (is_set c.alloc_table)) [
    | inl f ↦ rw (e, f) f
    | inr f ↦ elim (Option-cases (vmalloc_pages b.vmalloc_to_page (page_count b.size) b.vaddr)) [
      | inl g ↦ rw (e, f, g) refl
      | inr (es, g) ↦
          rw (e, f, g)
            (
              refl,
              record { in_force = refl },
              vmalloc_pages-IsVmalloc b.vmalloc_to_page (page_count b.size) b.vaddr es g,
            )
    ]
  ]
]

ops-Fresh :
    ⦃al : Align⦄ (k : Exporter) (c : AttachCalls) (b : Backing)
    → Fresh (Backs k b) ((ops k).attach c b)
unfolding ops contig_attach attach
ops-Fresh dma_sg c b = attach-Fresh c b
ops-Fresh dma_contig c b = attach-Fresh c b
ops-Fresh vmalloc c b = attach_vmalloc-Fresh c b

Fresh-Detached :
    ⦃al : Align⦄ (k : Exporter) (b : Backing) (us : List Use) (r : Option Attachment × Ret)
    → AllProper us
    → Fresh (Backs k b) r
    → Detached k b us r
Fresh-Detached k b us (none, r) ps f = f
Fresh-Detached k b us (some a, r) ps (e, v, t) =
    let h = ops-IsAlike k in
    let (a', u, s, w) = uses-Consistent (ops k) us a h ps v in
    (e, t, (a', u, s, h.detaches (some a') ∙ detach-Consistent a' w))

-- Whatever exporter a buffer is of and whatever the kernel's calls return, an importer that attaches is refused with
-- an error and gets no attachment, or gets one with a table of the buffer's pages: a copy of the
-- buffer's own table, or, for memory of `vmalloc`, whole pages in order, one for each page of the
-- size, rounded up on an `unsigned long` and counted in 32 bits. Then it maps and unmaps in any
-- order, in proper directions, with any outcome and with any addresses written into the table; the
-- pages of the table stay, with their lengths and offsets, and detaching ends every mapping.
pub ops-Detached :
    ⦃al : Align⦄ (k : Exporter) (c : AttachCalls) (b : Backing) (us : List Use)
    → AllProper us
    → Detached k b us ((ops k).attach c b)
ops-Detached k c b us ps = Fresh-Detached k b us ((ops k).attach c b) ps (ops-Fresh k c b)
