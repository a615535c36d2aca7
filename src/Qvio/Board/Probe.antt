-- ===== src/Qvio/Board/Probe.antt =====
-- `__pci_probe` and `__pci_remove` of modules/qvio/pci_device.c, `__probe` and `__remove` of
-- modules/qvio/platform_device.c, and the references of a `qvio_video` in modules/qvio/video.c.
pub mod Balance
use Prim.Native.String.{String}
use v4l2_tuto.Prelude.{
  ℕ, ◌+◌, ◌*◌, ◌%◌, ◌==◌, ◌||◌, Bool, true, false, not, Option, none, some, List, [], ◌∷◌,
  if◌then◌else◌,
}
use v4l2_tuto.Kernel.{einval, enomem, Ret, neg, value, success, is_set, Align}
use v4l2_tuto.Cdev.{Registry, Cdev, cdev_start, cdev_stop}
use v4l2_tuto.Qvio.Format.{video_capture}
use v4l2_tuto.Qvio.UserJob.{user_job_stop}
use v4l2_tuto.Qvio.Video.{Video, rx, video_new}
use v4l2_tuto.Qvio.Video.Start.{StartCalls, video_start, video_stop}
use v4l2_tuto.Qvio.Board.{
  max_user_irq, xdma_channel_num_max, Board, device_new, device_put, XdmaCalls, xdma_open,
  xdma_close,
}

-- How a probe or a removal ends: with a use of memory that is not there, or in order.
pub data Probed : Type 0 where
  fault : Probed
  probed : Registry → Option Board → Ret → Probed

-- What a probe meets: the subsystem's two numbers, its bus information with the length that `snprintf`
-- returns for it, and the outcome of each call.
pub record ProbeCalls : Type 0 where
  pub device_new : Bool
  pub subsystem_vendor : ℕ
  pub subsystem_device : ℕ
  pub bus_info : String
  pub name_length : ℕ
  pub xdma : XdmaCalls
  pub cdev_add : Ret
  pub device_create : Bool
  pub video_new : Bool
  pub video : StartCalls

-- `qvio_video_put` of the only reference, with the addresses of the entries in the two lists; `none` is a
-- read of freed memory in `qvio_user_job_stop`. The device is kept as it is when its memory is freed.
unfoldable pub video_put : (jobs dones : List ℕ) → Board → Option Board
unfolding user_job_stop
video_put jobs dones b = elim (user_job_stop (λ p. true) jobs dones) [
  | none ↦ none
  | some live ↦ some (record b { video = none; dropped = b.video })
]

-- The last label of both probes.
put_device : Registry → Board → Ret → Probed
unfolding device_put
put_device g b ret = elim (device_put b) [ none ↦ fault | some b' ↦ probed g (some b') ret ]

-- `err2`.
close_xdma : Registry → Board → Ret → Probed
unfolding put_device xdma_close
close_xdma g b ret = elim (xdma_close b) [ none ↦ fault | some b' ↦ put_device g b' ret ]

-- `err3`, with what follows it.
stop_cdev : (Registry → Board → Ret → Probed) → Registry → Board → Ret → Probed
unfolding cdev_stop
stop_cdev next g b ret = elim (cdev_stop b.cdev) [
  | none ↦ fault
  | some d ↦ next g (record b { cdev = d }) ret
]

-- `err4`, with what follows it. No job can have come yet.
put_video : (Registry → Board → Ret → Probed) → Registry → Board → Ret → Probed
unfolding stop_cdev video_put
put_video next g b ret = elim (video_put [] [] b) [
  | none ↦ fault
  | some b' ↦ stop_cdev next g b' ret
]

-- The start of the video device, the last step of both probes.
start_video :
    ⦃al : Align⦄
    → (Registry → Board → Ret → Probed)
    → StartCalls
    → Registry
    → Board
    → Video
    → Probed
unfolding put_video
start_video next calls g b v =
    let (v', err) = video_start calls v in
    if is_set err
    then put_video next g (record b { video = some v' }) err
    else probed g (some (record b { video = some v' })) success

-- The two `case` groups on `device_id`.
abbrev pub is_supported : ℕ → Bool
is_supported id = id == 0xF7150002 || id == 0xF7570001 || id == 0xF7570601

module _ ⦃al : Align⦄ (c : ProbeCalls) where
  -- From `qvio_video_new` on. On an unsupported board `err` still holds what `snprintf` returned.
  pci_video : Registry → Board → Option Video → Probed
  unfolding put_video start_video close_xdma
  pci_video g b none = fault
  pci_video g b (some v) =
      let w : Video = record v {
        user_job_ctrl = record (v.user_job_ctrl) { enable = false };
        vfl_dir = rx;
        buffer_type = video_capture;
        capture_caps = true;
        bus_info = c.bus_info;
      } in
      if is_supported b.device_id
      then start_video close_xdma c.video g (record b { channel = 0 }) w
      else put_video close_xdma g (record b { video = some w }) (value c.name_length)

  pci_cdev : Registry → Board → Probed
  unfolding pci_video close_xdma cdev_start video_new
  pci_cdev g b =
      let (g', d, err) = cdev_start c.cdev_add c.device_create g b.cdev in
      if is_set err
      then close_xdma g' (record b { cdev = d }) err
      else pci_video g' (record b { cdev = d }) (video_new c.video_new)

  pci_xdma : Registry → Board → Probed
  unfolding pci_cdev put_device xdma_open
  pci_xdma g b =
      let (b', err) = xdma_open c.xdma b in
      if is_set err then put_device g b' err else pci_cdev g b'

  -- `__pci_probe`.
  unfoldable pub pci_probe : Registry → Probed
  unfolding pci_xdma device_new
  pci_probe g = elim (device_new c.device_new) [
    | none ↦ probed g none (neg enomem)
    | some b ↦ pci_xdma g (record b {
      drvdata = true;
      device_id = c.subsystem_vendor % 65536 * 65536 + c.subsystem_device % 65536;
      user_max = max_user_irq;
      h2c_channel_max = xdma_channel_num_max;
      c2h_channel_max = xdma_channel_num_max;
    })
  ]

  -- From `qvio_video_new` on.
  platform_video : Registry → Board → Option Video → Probed
  unfolding start_video put_device
  platform_video g b none = fault
  platform_video g b (some v) = start_video put_device c.video g b (record v {
    user_job_ctrl = record (v.user_job_ctrl) { enable = true };
    vfl_dir = rx;
    buffer_type = video_capture;
    capture_caps = true;
    bus_info = "platform";
  })

  platform_cdev : Registry → Board → Probed
  unfolding platform_video put_device cdev_start video_new
  platform_cdev g b =
      let (g', d, err) = cdev_start c.cdev_add c.device_create g b.cdev in
      if is_set err
      then put_device g' (record b { cdev = d }) err
      else platform_video g' (record b { cdev = d }) (video_new c.video_new)

  -- `__probe` of the platform device.
  unfoldable pub platform_probe : Registry → Probed
  unfolding platform_cdev device_new
  platform_probe g = elim (device_new c.device_new) [
    | none ↦ probed g none (neg enomem)
    | some b ↦ platform_cdev g (record b { drvdata = true })
  ]

-- The end of both removals: the driver data are cleared.
clear_drvdata : Probed → Probed
clear_drvdata fault = fault
clear_drvdata (probed g none ret) = probed g none ret
clear_drvdata (probed g (some b) ret) = probed g (some (record b { drvdata = false })) ret

remove_video :
    (Registry → Board → Ret → Probed)
    → (jobs dones : List ℕ) → Registry
    → Board
    → Option Video
    → Probed
unfolding video_put video_stop stop_cdev clear_drvdata
remove_video next jobs dones g b none = fault
remove_video next jobs dones g b (some v) =
    elim (video_put jobs dones (record b { video = some (video_stop v) })) [
      | none ↦ fault
      | some b' ↦ clear_drvdata (stop_cdev next g b' success)
    ]

-- `__pci_remove`, which does nothing without driver data, and `__remove`.
unfoldable pub pci_remove : (jobs dones : List ℕ) → Registry → Board → Probed
unfolding remove_video close_xdma
pci_remove jobs dones g b =
    if not b.drvdata
    then probed g (some b) success
    else remove_video close_xdma jobs dones g b b.video

unfoldable pub platform_remove : (jobs dones : List ℕ) → Registry → Board → Probed
unfolding remove_video put_device
platform_remove jobs dones g b = remove_video put_device jobs dones g b b.video
