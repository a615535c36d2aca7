-- ===== src/Qdmabuf/Command/Served.antt =====
-- On the two requests of modules/qdmabuf/ioctl.c.
use v4l2_tuto.Qdmabuf.Command.{
  type_dma_contig, type_dma_sg, type_vmalloc, AllocArgs, AllocCalls, buffer_size, ioctl_alloc,
  InfoCalls, ioctl_info, none_held,
}
use v4l2_tuto.Prelude.{
  ℕ, ◌+◌, ◌-◌, ◌^◌, ◌%◌, ◌==◌, ◌<◌, ◌≤◌, ◌≡◌, ◌⊎◌, u32, true, false, Option, none, some,
  if◌then◌else◌, arith,
}
use v4l2_tuto.Kernel.{einval, efault, Ret, neg, success, is_neg, is_set, Align}
use v4l2_tuto.Qdmabuf.Ledger.{
  Ledger, nothing, Outcome, returned, double_free, take, mapping, memory, buffer,
}
use v4l2_tuto.Qdmabuf.Export.Outcomes.{contig_held, sg_held}
use v4l2_tuto.Qdmabuf.Export.{alloc_dma_sg, alloc_dma_contig, alloc_vmalloc}

-- What a finished buffer of a kind holds.
abbrev pub held_of : ℕ → Ledger
held_of type =
    if type == type_dma_contig
    then contig_held
    else if type == type_dma_sg
    then sg_held
    else if type == type_vmalloc
    then take memory (take buffer nothing)
    else nothing

-- What the exporter gets for a descriptor.
abbrev pub fd_of : AllocCalls → (type size : ℕ) → Ret
fd_of c type size =
    if type == type_dma_contig
    then (c.contig size).fd
    else if type == type_dma_sg
    then (c.sg size).fd
    else (c.vmalloc size).fd

module _ ⦃al : Align⦄ where
  -- The size of a buffer, where the asked length less multiples of 4 GiB is at least a page below 4 GiB. Up to
  -- 2 GiB less a page it is that rest, rounded up to a page, and so is smaller than asked when 4 GiB or more are
  -- asked for. Above that the sign makes it 2^64 less at most 2 GiB.
  pub buffer_size-bounds :
      (len : ℕ)
      → u32 len + 4096 ≤ 2 ^ 32
      → ((u32 len + 4096 ≤ 2 ^ 31)
          × (u32 len ≤ buffer_size len)
          × (buffer_size len < u32 len + 4096)
          × (buffer_size len % 4096 ≡ 0)
          × ((len ≡ u32 len) ⊎ (buffer_size len < len)))
        ⊎ ((2 ^ 31 < u32 len + 4096) × (2 ^ 64 - 2 ^ 31 ≤ buffer_size len))
  unfolding buffer_size
  buffer_size-bounds len fits =
      ground (arith, al.align-ge (u32 len) 12, al.align-lt (u32 len) 12, al.align-mod (u32 len) 12)

  -- The kernel's calls in a scatter-gather allocation return 0 or a negative code, and it is a kernel after
  -- 5.10.120.
  pub record Documented (c : AllocCalls) (size : ℕ) : Type 0 where
    pub recent : (c.sg size).legacy ≡ false
    pub compacted : is_set (c.sg size).alloc_compacted ≡ is_neg (c.sg size).alloc_compacted
    pub table : is_set (c.sg size).alloc_table ≡ is_neg (c.sg size).alloc_table

  -- How an allocation request ends.
  abbrev pub Served : AllocCalls → AllocArgs → Outcome × Option AllocArgs → Type 0
  Served c a (double_free, some b) = ⊥
  Served c a (double_free, none) = is_neg (fd_of c a.type (buffer_size a.len)) ≡ true
  Served c a (returned l ret, some b) =
      (ret ≡ success)
      × (l ≡ held_of a.type)
      × (a.type ≤ 2)
      × (c.copy_to_user ≡ true)
      × (record b { fd = a.fd } ≡ a)
  Served c a (returned l ret, none) =
      (is_neg ret ≡ true)
      × ((l ≡ nothing)
          ⊎ ((l ≡ take mapping nothing) × (a.type ≡ 1))
          ⊎ ((l ≡ held_of a.type) × (ret ≡ neg efault) × (c.copy_to_user ≡ false)))

  -- On a kernel after 5.10.120, where the calls before the mapping in a scatter-gather allocation return 0 or a
  -- negative code, an allocation request ends in one of five ways. It succeeds,
  -- and then the buffer of the kind asked for is complete, and the caller gets its arguments back with no
  -- field but the descriptor changed. It fails with nothing held; or, on a scatter-gather buffer, with its DMA
  -- mapping left; or, when the copy back fails, with a complete buffer that has a descriptor the caller is not
  -- told. Or it frees a buffer twice, and then there was no descriptor to be had.
  pub ioctl_alloc-Served :
      (c : AllocCalls) (a : AllocArgs)
      → Documented c (buffer_size a.len)
      → Served c a (ioctl_alloc c a)
  unfolding ioctl_alloc alloc_dma_sg alloc_dma_contig alloc_vmalloc
  ioctl_alloc-Served c a d = ground arith

-- The information request releases everything that it took, and nothing that it did not take, on every path. It
-- succeeds exactly when the copy, the reference, the attachment and the mapping do; whether the processor's
-- access could begin plays no part.
pub ioctl_info_balanced :
    (c : InfoCalls)
    → ((ioctl_info c ≡ some (none_held, success))
        × (c.copy_from_user ≡ true)
        × (c.get ≡ true)
        × (c.attach ≡ true)
        × (c.map ≡ true))
      ⊎ ((ioctl_info c ≡ some (none_held, neg efault)) × (c.copy_from_user ≡ false))
      ⊎ ((ioctl_info c ≡ some (none_held, neg einval))
          × (c.copy_from_user ≡ true)
          × ((c.get ≡ false) ⊎ (c.attach ≡ false) ⊎ (c.map ≡ false)))
unfolding ioctl_info
ioctl_info_balanced c = ground arith
