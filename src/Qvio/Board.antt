-- ===== src/Qvio/Board.antt =====
-- modules/qvio/device.c and `qvio_device` of modules/qvio/device.h: a board, its libxdma handle, and what
-- its probe takes. What libxdma returns is an argument.
pub mod Probe
pub mod Limits
use v4l2_tuto.Prelude.{
  ℕ, zero, suc, ◌+◌, ◌-◌, ◌^◌, ◌==◌, ltb, Bool, true, false, not, Option, none, some, if◌then◌else◌,
}
use v4l2_tuto.Kernel.{einval, Ret, neg, success, is_set}
use v4l2_tuto.Cdev.{Cdev}
use v4l2_tuto.Qvio.Video.{Video}

-- `MAX_USER_IRQ` and `XDMA_CHANNEL_NUM_MAX`.
abbrev pub max_user_irq : ℕ
max_user_irq = 16

abbrev pub xdma_channel_num_max : ℕ
xdma_channel_num_max = 4

-- `struct qvio_device`: its reference count, 0 once it is freed; whether the driver data of the bus device
-- point to it; whether its libxdma handle is open.
pub record Board : Type 0 where
  pub references : ℕ
  pub drvdata : Bool
  pub device_id : ℕ
  pub user_max : ℕ
  pub c2h_channel_max : ℕ
  pub h2c_channel_max : ℕ
  pub xdev : Bool
  pub cdev : Cdev
  pub video : Option Video
  pub channel : ℕ
  pub dropped : Option Video

-- What `kzalloc` clears, with the reference of `kref_init`.
abbrev pub new_board : Board
new_board = record {
  references = 1;
  drvdata = false;
  device_id = 0;
  user_max = 0;
  c2h_channel_max = 0;
  h2c_channel_max = 0;
  xdev = false;
  cdev = record { minor = 0; added = false; node = false };
  video = none;
  channel = 0;
  dropped = none;
}

-- `qvio_device_new`, `qvio_device_get` and `qvio_device_put`; `none` is a reference that is not there.
unfoldable pub device_new : Bool → Option Board
device_new allocated = if allocated then some new_board else none

unfoldable pub device_get : Board → Board
device_get b = record b { references = b.references + 1 }

unfoldable pub device_put : Board → Option Board
device_put b = if b.references == 0 then none else some (record b { references = b.references - 1 })

-- What `qvio_device_xdma_open` meets: whether `xdma_device_open` gives a handle, the limits that it sets,
-- what `xdma_user_isr_enable` returns for a mask, whether `xdev_find_by_pdev` finds a device, and whether that
-- is the handle.
pub record XdmaCalls : Type 0 where
  pub opened : Bool
  pub user_max : ℕ
  pub h2c_channel_max : ℕ
  pub c2h_channel_max : ℕ
  pub isr_enable : (mask : ℕ) → Ret
  pub found : Bool
  pub same : Bool

-- From `xdev_find_by_pdev` on.
find_xdev : XdmaCalls → Board → Board × Ret
find_xdev c b =
    if not c.found
    then (record b { xdev = false }, neg einval)
    else if not c.same
    then (record b { xdev = false }, neg einval)
    else (b, success)

-- From the interrupts on; `(1 << (user_max + 1)) - 1` is the mask.
enable_isr : XdmaCalls → Board → Board × Ret
unfolding find_xdev
enable_isr c b =
    if b.user_max == 0
    then find_xdev c b
    else if is_set (c.isr_enable (2 ^ (b.user_max + 1) - 1))
    then (record b { xdev = false }, c.isr_enable (2 ^ (b.user_max + 1) - 1))
    else find_xdev c b

check_limits : XdmaCalls → Board → Board × Ret
unfolding enable_isr
check_limits c b =
    if ltb max_user_irq b.user_max
    then (record b { xdev = false }, neg einval)
    else if ltb xdma_channel_num_max b.h2c_channel_max
    then (record b { xdev = false }, neg einval)
    else if ltb xdma_channel_num_max b.c2h_channel_max
    then (record b { xdev = false }, neg einval)
    else enable_isr c b

-- `qvio_device_xdma_open`; `err1` closes the handle.
unfoldable pub xdma_open : XdmaCalls → Board → Board × Ret
unfolding check_limits
xdma_open c b =
    if not c.opened
    then (
      record b {
        user_max = max_user_irq;
        h2c_channel_max = xdma_channel_num_max;
        c2h_channel_max = xdma_channel_num_max;
      },
      neg einval,
    )
    else check_limits c (record b {
      user_max = c.user_max;
      h2c_channel_max = c.h2c_channel_max;
      c2h_channel_max = c.c2h_channel_max;
      xdev = true;
    })

-- `qvio_device_xdma_close`; `none` is a handle that is not open.
unfoldable pub xdma_close : Board → Option Board
xdma_close b = if b.xdev then some (record b { xdev = false }) else none
