-- ===== src/Qdmabuf/Command.antt =====
-- modules/qdmabuf/ioctl.c, and `__file_ioctl` of modules/qdmabuf/cdev.c. What the kernel's calls return is an
-- argument.
pub mod Served
use v4l2_tuto.Prelude.{
  ℕ, ◌+◌, ◌-◌, ◌^◌, ◌==◌, ltb, u32, Bool, true, false, not, Option, none, some, if◌then◌else◌,
}
use v4l2_tuto.Kernel.{Errno, einval, efault, Ret, neg, pos, value, success, is_set, Align, align}
use v4l2_tuto.Qdmabuf.Ledger.{Ledger, nothing, Outcome, returned, double_free}
use v4l2_tuto.Qdmabuf.Export.{
  SgCalls, alloc_dma_sg, ContigCalls, alloc_dma_contig, VmallocCalls, alloc_vmalloc,
}

-- `struct qdmabuf_alloc_args`.
pub record AllocArgs : Type 0 where
  pub len : ℕ
  pub type : ℕ
  pub fd_flags : ℕ
  pub dma_dir : ℕ
  pub fd : ℕ

-- `QDMABUF_TYPE_DMA_CONTIG`, `QDMABUF_TYPE_DMA_SG` and `QDMABUF_TYPE_VMALLOC`.
abbrev pub type_dma_contig : ℕ
type_dma_contig = 0

abbrev pub type_dma_sg : ℕ
type_dma_sg = 1

abbrev pub type_vmalloc : ℕ
type_vmalloc = 2

-- `size_t size = PAGE_ALIGN(len)` of the three exporters, where `len` has become an `int`: it is rounded up as
-- such, and its sign is extended.
unfoldable pub buffer_size : ⦃al : Align⦄ → (len : ℕ) → ℕ
buffer_size len =
    let aligned = align (u32 len) 4096 in
    if ltb aligned (2 ^ 31) then aligned else aligned + (2 ^ 64 - 2 ^ 32)

-- What `qdmabuf_ioctl_alloc` meets: whether the two copies succeed, and what the calls of an exporter return
-- for a buffer of a given size; and the numbers of the error codes.
pub record AllocCalls : Type 0 where
  pub copy_from_user : Bool
  pub contig : (size : ℕ) → ContigCalls
  pub sg : (size : ℕ) → SgCalls
  pub vmalloc : (size : ℕ) → VmallocCalls
  pub copy_to_user : Bool
  pub number : Errno → ℕ

-- The `switch` on the type.
unfoldable pub alloc_type : ⦃al : Align⦄ → AllocCalls → AllocArgs → Outcome
unfolding alloc_dma_contig alloc_dma_sg alloc_vmalloc buffer_size
alloc_type c a =
    if a.type == type_dma_contig
    then alloc_dma_contig (c.contig (buffer_size a.len))
    else if a.type == type_dma_sg
    then alloc_dma_sg (c.sg (buffer_size a.len))
    else if a.type == type_vmalloc
    then alloc_vmalloc (c.vmalloc (buffer_size a.len))
    else returned nothing (neg einval)

-- From `args.fd = ret` on, with the arguments that the caller gets back.
give_fd : AllocCalls → AllocArgs → Ledger → ℕ → Outcome × Option AllocArgs
give_fd c a l n =
    if not c.copy_to_user
    then (returned l (neg efault), none)
    else (returned l success, some (record a { fd = u32 n }))

-- From the exporter's result on; a positive error number is taken for a descriptor.
check_ret : AllocCalls → AllocArgs → Outcome → Outcome × Option AllocArgs
unfolding give_fd
check_ret c a double_free = (double_free, none)
check_ret c a (returned l (neg e)) = (returned l (neg e), none)
check_ret c a (returned l (value n)) = give_fd c a l n
check_ret c a (returned l (pos e)) = give_fd c a l (c.number e)

-- `qdmabuf_ioctl_alloc`.
unfoldable pub ioctl_alloc : ⦃al : Align⦄ → AllocCalls → AllocArgs → Outcome × Option AllocArgs
unfolding check_ret alloc_type
ioctl_alloc c a =
    if not c.copy_from_user
    then (returned nothing (neg efault), none)
    else check_ret c a (alloc_type c a)

-- What `qdmabuf_ioctl_info` holds on the way: the reference on the buffer, the attachment, the processor's
-- access, and the mapping.
pub record Held : Type 0 where
  pub reference : Bool
  pub attachment : Bool
  pub access : Bool
  pub mapping : Bool

abbrev pub none_held : Held
none_held = record { reference = false; attachment = false; access = false; mapping = false }

-- The calls of `qdmabuf_ioctl_info`: whether they give a pointer that is no error, and what
-- `dma_buf_begin_cpu_access` returns.
pub record InfoCalls : Type 0 where
  pub copy_from_user : Bool
  pub get : Bool
  pub attach : Bool
  pub begin_cpu_access : Ret
  pub map : Bool

-- The labels, each falling through to the one before; `none` is a release of what is not held. The kernel does
-- not mind an end of access without a beginning.
info_err1 : Held → Ret → Option (Held × Ret)
info_err1 h ret = if h.reference then some (record h { reference = false }, ret) else none

info_err2 : Held → Ret → Option (Held × Ret)
unfolding info_err1
info_err2 h ret = if h.attachment then info_err1 (record h { attachment = false }) ret else none

info_err3 : Held → Ret → Option (Held × Ret)
unfolding info_err2
info_err3 h ret = info_err2 (record h { access = false }) ret

info_unmap : Held → Ret → Option (Held × Ret)
unfolding info_err3
info_unmap h ret = if h.mapping then info_err3 (record h { mapping = false }) ret else none

-- From the mapping on.
info_map : InfoCalls → Held → Option (Held × Ret)
unfolding info_unmap info_err3
info_map c h =
    if not c.map then info_err3 h (neg einval) else info_unmap (record h { mapping = true }) success

-- From `dma_buf_begin_cpu_access` on. The test that follows it is on `attach`, which is no error here.
info_access : InfoCalls → Held → Option (Held × Ret)
unfolding info_map
info_access c h = info_map c (record h { access = not (is_set c.begin_cpu_access) })

-- `qdmabuf_ioctl_info`.
unfoldable pub ioctl_info : InfoCalls → Option (Held × Ret)
unfolding info_access info_err1
ioctl_info c =
    if not c.copy_from_user
    then some (none_held, neg efault)
    else if not c.get
    then some (none_held, neg einval)
    else if not c.attach
    then info_err1 (record none_held { reference = true }) (neg einval)
    else info_access c (record none_held { reference = true; attachment = true })

-- The requests of `__file_ioctl`, and their ends.
pub data Command : Type 0 where
  alloc : AllocArgs → Command
  info other : Command

pub data Ending : Type 0 where
  of_alloc : Outcome → Option AllocArgs → Ending
  of_info : Option (Held × Ret) → Ending
  refused : Ret → Ending

-- `__file_ioctl`.
unfoldable pub file_ioctl : ⦃al : Align⦄ → AllocCalls → InfoCalls → Command → Ending
unfolding ioctl_alloc ioctl_info
file_ioctl c i (alloc a) = of_alloc (ioctl_alloc c a).0 (ioctl_alloc c a).1
file_ioctl c i info = of_info (ioctl_info i)
file_ioctl c i other = refused (neg einval)
