-- ===== src/Qvio/Pci.antt =====
-- The file operations and the error handlers of modules/qvio/pci_device.c, and the module's entry points in
-- modules/qvio/module.c. The registers behind the BAR, the user's memory and libxdma are arguments.
pub mod Access
pub mod Recovery
use v4l2_tuto.Prelude.{
  ℕ, ◌+◌, ◌*◌, ◌-◌, ◌%◌, ◌/◌, ◌^◌, ◌==◌, ltb, bit_and, Bool, true, false, not, Option, none, some,
  if◌then◌else◌,
}
use v4l2_tuto.Kernel.{einval, eproto, enotty, eagain, Ret, neg, value, success, is_set}
use v4l2_tuto.Cdev.{Registry, cdev_register, cdev_unregister}

-- `unsigned long`, and its subtraction.
abbrev pub u64 : ℕ → ℕ
u64 x = x % 18446744073709551616

abbrev pub sub64 : ℕ → ℕ → ℕ
sub64 a b = u64 (a + (18446744073709551616 - u64 b))

-- The device memory behind the BAR: `ioread32` and `iowrite32` at an offset.
pub record Bar (M : Type 0) : Type 0 where
  pub ioread32 : ℕ → M → ℕ × M
  pub iowrite32 : (word offset : ℕ) → M → M

-- A transfer: what is returned, `*pos`, the device, and the word that the user's memory got.
pub record Transfer (M : Type 0) : Type 0 where
  pub result : Ret
  pub pos : ℕ
  pub device : M
  pub user : Option ℕ

module _ {M : Type 0} (bar : Bar M) where
  -- `__file_read`; `copied` is whether `copy_to_user` succeeds.
  unfoldable pub file_read : (copied : Bool) → (count pos : ℕ) → M → Transfer M
  file_read copied count pos m =
      if not (bit_and pos 3 == 0)
      then record { result = neg eproto; pos = pos; device = m; user = none }
      else let (w, m') = bar.ioread32 pos m in
        record {
          result = value 4;
          pos = pos + 4;
          device = m';
          user = if copied then some w else none;
        }

  -- `__file_write`; `word` is what `copy_from_user` leaves in `w`, whether it succeeds or not.
  unfoldable pub file_write : (word count pos : ℕ) → M → Transfer M
  file_write word count pos m =
      if not (bit_and pos 3 == 0)
      then record { result = neg eproto; pos = pos; device = m; user = none }
      else record {
        result = value 4;
        pos = pos + 4;
        device = bar.iowrite32 word pos m;
        user = none;
      }

-- The resource of the BAR, and the area of an `mmap`.
pub record Area : Type 0 where
  pub bar_start : ℕ
  pub bar_end : ℕ
  pub vm_start : ℕ
  pub vm_end : ℕ
  pub vm_pgoff : ℕ

-- The pages that are mapped: the first page frame, and the length.
pub record Mapped : Type 0 where
  pub pfn : ℕ
  pub size : ℕ

-- The three numbers of `__file_mmap`, with `PAGE_SHIFT` 12.
abbrev pub offset : Area → ℕ
offset a = u64 (a.vm_pgoff * 4096)

abbrev pub vsize : Area → ℕ
vsize a = sub64 a.vm_end a.vm_start

abbrev pub psize : Area → ℕ
psize a = sub64 (u64 (sub64 a.bar_end a.bar_start + 1)) (offset a)

-- `__file_mmap`; `remap` is what `io_remap_pfn_range` returns.
unfoldable pub file_mmap : (remap : Ret) → Area → Option Mapped × Ret
file_mmap remap a =
    if ltb (psize a) (vsize a)
    then (none, neg einval)
    else if is_set remap
    then (none, neg eagain)
    else (some (record { pfn = u64 (a.bar_start + offset a) / 4096; size = vsize a }), success)

-- What the kernel and libxdma know of the board: whether the engines are online, whether the device is
-- enabled, and whether it is a bus master.
pub record Link : Type 0 where
  pub online : Bool
  pub enabled : Bool
  pub master : Bool

-- `qvio_device_xdma_online` and `qvio_device_xdma_offline`.
abbrev pub xdma_online : Link → Link
xdma_online l = record l { online = true }

abbrev pub xdma_offline : Link → Link
xdma_offline l = record l { online = false }

-- The commands of `__file_ioctl`: another magic number, the two that it knows, and any other.
pub data Command : Type 0 where
  bad_magic offline online unknown : Command

-- `__file_ioctl`; without a libxdma handle it fails.
unfoldable pub pci_ioctl : (xdev : Bool) → Command → Link → Link × Ret
pci_ioctl false c l = (l, neg einval)
pci_ioctl true bad_magic l = (l, neg enotty)
pci_ioctl true offline l = (xdma_offline l, success)
pci_ioctl true online l = (xdma_online l, success)
pci_ioctl true unknown l = (l, neg enotty)

-- `pci_channel_state_t` and `pci_ers_result_t`.
pub data ChannelState : Type 0 where
  io_normal io_frozen io_perm_failure io_other : ChannelState

pub data ErsResult : Type 0 where
  can_recover need_reset disconnect recovered : ErsResult

-- `__pci_error_detected`.
unfoldable pub error_detected : ChannelState → Link → Link × ErsResult
error_detected io_normal l = (l, can_recover)
error_detected io_frozen l =
    (record (xdma_offline l) { enabled = false; master = false }, need_reset)
error_detected io_perm_failure l = (l, disconnect)
error_detected io_other l = (l, need_reset)

-- `__pci_slot_reset`; `enable_mem` is whether `pci_enable_device_mem` fails.
unfoldable pub slot_reset : (enable_mem : Ret) → Link → Link × ErsResult
slot_reset enable_mem l =
    if is_set enable_mem
    then (l, disconnect)
    else (xdma_online (record l { enabled = true; master = true }), recovered)

-- `__pci_reset_prepare` and `__pci_reset_done`.
unfoldable pub reset_prepare : Link → Link
reset_prepare l = xdma_offline l

unfoldable pub reset_done : Link → Link
reset_done l = xdma_online l

-- What the module holds: the registry of its character devices, and its driver.
pub record Module : Type 0 where
  pub registry : Registry
  pub driver : Bool

-- `qvio_device_pci_register` and `qvio_device_pci_unregister`.
unfoldable pub pci_register : (register : Ret) → Module → Module × Ret
pci_register register s =
    if is_set register then (s, register) else (record s { driver = true }, success)

unfoldable pub pci_unregister : Module → Module
pci_unregister s = record s { driver = false }

-- `qvio_mod_init`.
unfoldable pub mod_init :
    (class_create : Bool) → (alloc_region register : Ret) → Module → Module × Ret
unfolding pci_register cdev_register cdev_unregister
mod_init class_create alloc_region register s =
    let (g, err) = cdev_register class_create alloc_region s.registry in
    if is_set err
    then (record s { registry = g }, err)
    else let (s', err') = pci_register register (record s { registry = g }) in
      if is_set err'
      then (record s' { registry = cdev_unregister s'.registry }, err')
      else (s', success)

-- `qvio_mod_exit`.
unfoldable pub mod_exit : Module → Module
unfolding pci_unregister cdev_unregister
mod_exit s =
    let s' : Module = pci_unregister s in record s' { registry = cdev_unregister s'.registry }
