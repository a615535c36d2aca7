-- ===== src/Qvio/Board/Limits.antt =====
-- On `qvio_device_xdma_open` of modules/qvio/device.c.
use v4l2_tuto.Prelude.{◌+◌, ◌-◌, ◌^◌, ◌≤◌, ◌≡◌, ◌⊎◌, true, false, arith}
use v4l2_tuto.Kernel.{neg, einval, success, is_set}
use v4l2_tuto.Qvio.Board.{Board, XdmaCalls, xdma_open}

-- A board whose libxdma handle can be used.
pub record Usable (c : XdmaCalls) : Type 0 where
  pub opened : c.opened ≡ true
  pub irqs : c.user_max ≤ 16
  pub h2c : c.h2c_channel_max ≤ 4
  pub c2h : c.c2h_channel_max ≤ 4
  pub enabled : (c.user_max ≡ 0) ⊎ (is_set (c.isr_enable (2 ^ (c.user_max + 1) - 1)) ≡ false)
  pub found : c.found ≡ true
  pub same : c.same ≡ true

-- Opening libxdma on a board succeeds exactly when the handle can be used, and the handle is open afterwards
-- exactly when it succeeded; then the limits are within 16 interrupts and 4 channels each way. A failure of
-- the interrupts gives their code, any other `-EINVAL`.
pub xdma_open_lem :
    (c : XdmaCalls) (b : Board)
    → b.xdev ≡ false
    → ((Usable c)
        × ((xdma_open c b).1 ≡ success)
        × ((xdma_open c b).0.xdev ≡ true)
        × ((xdma_open c b).0.user_max ≤ 16)
        × ((xdma_open c b).0.h2c_channel_max ≤ 4)
        × ((xdma_open c b).0.c2h_channel_max ≤ 4))
      ⊎ ((¬ Usable c)
          × (is_set (xdma_open c b).1 ≡ true)
          × ((xdma_open c b).0.xdev ≡ false)
          × (((xdma_open c b).1 ≡ neg einval)
              ⊎ ((xdma_open c b).1 ≡ c.isr_enable (2 ^ (c.user_max + 1) - 1))))
unfolding xdma_open
xdma_open_lem c b closed = ground arith
