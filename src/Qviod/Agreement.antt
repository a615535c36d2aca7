-- ===== src/Qviod/Agreement.antt =====
-- The driver and the daemon of samples/04_qviod/main.cpp together.
use v4l2_tuto.Prelude.{◌≡◌, Bool, true, false}
use v4l2_tuto.Kernel.{is_neg}
use v4l2_tuto.Qvio.Format.{Format}
use v4l2_tuto.Qvio.UserJob.{Ctrl}
use v4l2_tuto.Qvio.Video.{Video}
use v4l2_tuto.Qviod.{App, RoundCalls, Turn, next, left, broken, round}

-- Every call of a round succeeds, and nothing is typed.
pub record Quiet (k : RoundCalls) : Type 0 where
  pub select : is_neg k.select ≡ false
  pub quit : k.quit ≡ false
  pub get_copied : k.get_copied ≡ true
  pub done_allocated : k.done_allocated ≡ true
  pub done_copied : k.done_copied ≡ true

-- The channel and the daemon after a round.
abbrev pub channel_of : Turn → Ctrl → Ctrl
channel_of (next a c) d = c
channel_of (left a c) d = c
channel_of broken d = d

abbrev pub app_of : Turn → App → App
app_of (next a c) b = a
app_of (left a c) b = a
app_of broken b = b

-- A round of the daemon while the driver sleeps, without a signal.
abbrev pub daemon : RoundCalls → App → Ctrl → Ctrl × Bool
unfolding round
daemon k a c = (channel_of (round k a c) c, false)
