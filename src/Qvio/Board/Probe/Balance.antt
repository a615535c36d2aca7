-- ===== src/Qvio/Board/Probe/Balance.antt =====
-- On the probes and removals of modules/qvio: what they leave held.
use v4l2_tuto.Prelude.{
  refl, ap, sym, ◌∙◌, subst, inl, inr, Bool, Bool-cases, ◌∙◌, inr, subst, Bool-cases, inl, ℕ, ◌≡◌,
  ◌⊎◌, true, false, Option, none, some, List, [], if◌then◌else◌, arith, ◌%◌, ◌*◌, ◌+◌,
}
use v4l2_tuto.Kernel.{Ret, value, success, is_set, Align}
use v4l2_tuto.Qvio.Board.Probe.{
  video_capture, video_new, start_video, put_device, close_xdma, pci_video, pci_cdev, pci_xdma,
  put_video, Probed, fault, probed, ProbeCalls, pci_probe, pci_remove, platform_probe,
  platform_remove, is_supported,
}
use v4l2_tuto.Cdev.{Cdev, cdev_start, Registry}
use v4l2_tuto.Qvio.Board.{
  device_new, xdma_open, new_board, XdmaCalls, max_user_irq, xdma_channel_num_max, xdma_open, Board,
}
use v4l2_tuto.Qvio.Video.{Video, video_new, rx}
use v4l2_tuto.Qvio.Video.Lifecycle.{Succeeds, held, released}
use v4l2_tuto.Qvio.Video.Start.{video_start}
use v4l2_tuto.Qvio.UserJob.{user_job_start}
use v4l2_tuto.Qvio.Board.Limits.{Usable, xdma_open_lem}

-- A video device that was freed, if there was one, had nothing of it registered any more.
abbrev pub Unregistered : Option Video → Type 0
Unregistered none = Unit
Unregistered (some v) = v.registration ≡ released

-- A board that is freed, with nothing of it left.
pub record Gone (b : Board) : Type 0 where
  pub freed : b.references ≡ 0
  pub closed : b.xdev ≡ false
  pub removed : b.cdev.added ≡ false
  pub no_node : b.cdev.node ≡ false
  pub no_video : b.video ≡ none
  pub unregistered : Unregistered b.dropped

-- The board that the calls describe.
abbrev pub board_id : ProbeCalls → ℕ
board_id c = c.subsystem_vendor % 65536 * 65536 + c.subsystem_device % 65536

-- Every call of a probe succeeds, on a board that the driver knows.
pub record AllFine (c : ProbeCalls) : Type 0 where
  pub device_new : c.device_new ≡ true
  pub usable : Usable c.xdma
  pub cdev_add : c.cdev_add ≡ success
  pub device_create : c.device_create ≡ true
  pub video_new : c.video_new ≡ true
  pub video : Succeeds c.video
  pub supported : is_supported (board_id c) ≡ true

abbrev pub then_remove :
    (List ℕ → List ℕ → Registry → Board → Probed) → List ℕ → List ℕ → Probed → Probed
then_remove remove jobs dones fault = fault
then_remove remove jobs dones (probed g none ret) = fault
then_remove remove jobs dones (probed g (some b) ret) = remove jobs dones g b

abbrev pub EndsGone : Probed → Type 0
EndsGone fault = ⊥
EndsGone (probed g none ret) = ⊥
EndsGone (probed g (some b) ret) = Gone b × (b.drvdata ≡ false)

-- The video device of a probe that goes through: registered, or not, where `video_device_alloc` failed.
abbrev pub Shown : ProbeCalls → Option Video → Type 0
Shown c none = ⊥
Shown c (some v) =
    (v.registration ≡ (if c.video.device_alloc then held else released))
    × (v.user_job_ctrl.job_list ≡ [])
    × (v.user_job_ctrl.done_list ≡ [])

-- A board in use.
pub record Running (c : ProbeCalls) (b : Board) : Type 0 where
  pub referenced : b.references ≡ 1
  pub known : b.drvdata ≡ true
  pub added : b.cdev.added ≡ true
  pub shown : Shown c b.video

-- How a probe on PCI ends once it has a board with this number: with the board in use, or with nothing of it
-- left but the driver data; then the result is an error, or the length of the name where the number is not
-- known.
abbrev pub Ends : ProbeCalls → ℕ → Probed → Type 0
Ends c id fault = ⊥
Ends c id (probed g none ret) = ⊥
Ends c id (probed g (some b) ret) =
    ((ret ≡ success) × Running c b × (b.xdev ≡ true) × (is_supported id ≡ true))
    ⊎ (Gone b
        × (b.drvdata ≡ true)
        × ((is_set ret ≡ true) ⊎ ((ret ≡ value c.name_length) × (is_supported id ≡ false))))

module _ ⦃al : Align⦄ where
  put_video-Ends :
      (c : ProbeCalls) (g : Registry) (b : Board) (ret : Ret)
      → b.references ≡ 1
      → b.drvdata ≡ true
      → b.xdev ≡ true
      → b.cdev.added ≡ true
      → Unregistered b.video
      → (is_set ret ≡ true) ⊎ ((ret ≡ value c.name_length) × (is_supported b.device_id ≡ false))
      → Ends c b.device_id (put_video close_xdma g b ret)
  unfolding close_xdma put_video
  put_video-Ends c g b ret r d x a u e = ground arith

  -- The start of a device that has nothing, as far as the probe sees it.
  video_start-Shown :
      (c : ProbeCalls) (v : Video)
      → v.registration ≡ released
      → v.user_job_ctrl.job_list ≡ []
      → v.user_job_ctrl.done_list ≡ []
      → v.buffer_type ≡ video_capture
      → is_set (video_start c.video v).1 ≡ false
      → Shown c (some (video_start c.video v).0)
  unfolding video_start
  video_start-Shown c v vr vj vd vb ok = ground arith
      -- A start that fails with an error has undone what it registered.

  video_start_undone :
      (c : ProbeCalls) (v : Video)
      → v.registration ≡ released
      → is_set (video_start c.video v).1 ≡ true
      → (video_start c.video v).0.registration ≡ released
  unfolding video_start
  video_start_undone c v vr bad = ground arith

  start_video-Ends :
      (c : ProbeCalls) (g : Registry) (b : Board) (v : Video)
      → b.references ≡ 1
      → b.drvdata ≡ true
      → b.xdev ≡ true
      → b.cdev.added ≡ true
      → v.registration ≡ released
      → v.user_job_ctrl.job_list ≡ []
      → v.user_job_ctrl.done_list ≡ []
      → v.buffer_type ≡ video_capture
      → is_supported b.device_id ≡ true
      → Ends c b.device_id (start_video close_xdma c.video g b v)
  unfolding start_video
  start_video-Ends c g b v r d x a vr vj vd vb su =
      elim (Bool-cases (is_set (video_start c.video v).1)) [
        | inl e ↦ rw e (
            put_video-Ends c g (record b { video = some (video_start c.video v).0 })
              (video_start c.video v).1 r d x a (video_start_undone c v vr e) (inl e))
        | inr e ↦
            let shown = video_start-Shown c v vr vj vd vb e in
            rw e (inl (refl, record { referenced = r; known = d; added = a; shown = shown }, x, su))
      ]

  -- The device as the probe fills it in.
  abbrev described : ProbeCalls → Video → Video
  described c v = record v {
    user_job_ctrl = record (v.user_job_ctrl) { enable = false };
    vfl_dir = rx;
    buffer_type = video_capture;
    capture_caps = true;
    bus_info = c.bus_info;
  }

  pci_video-Ends :
      (c : ProbeCalls) (g : Registry) (b : Board) (v : Video)
      → v.registration ≡ released
      → v.user_job_ctrl.job_list ≡ []
      → v.user_job_ctrl.done_list ≡ []
      → b.references ≡ 1
      → b.drvdata ≡ true
      → b.xdev ≡ true
      → b.cdev.added ≡ true
      → Ends c b.device_id (pci_video c g b (some v))
  unfolding pci_video
  pci_video-Ends c g b v vr vj vd r d x a = elim (Bool-cases (is_supported b.device_id)) [
    | inl su ↦
        rw su
          (start_video-Ends c g (record b { channel = 0 }) (described c v) r d x a vr vj vd refl su)
    | inr un ↦ rw un (
        put_video-Ends c g (record b { video = some (described c v) }) (value c.name_length) r d x a
          vr (inr (refl, un)))
  ]

  cdev_start_fine :
      (add : Ret) (g : Registry) (d : Cdev)
      → is_set add ≡ false
      → cdev_start add true g d ≡ (
        record g { base = g.base + 1 },
        record { minor = g.base; added = true; node = true },
        success,
      )
  unfolding cdev_start
  cdev_start_fine add g d h = ground arith

  cdev_start_failed :
      (add : Ret) (create : Bool) (g : Registry) (d : Cdev)
      → is_set add ≡ true
      → cdev_start add create g d ≡ (
        record g { base = g.base + 1 },
        record { minor = g.base; added = false; node = false },
        add,
      )
  unfolding cdev_start
  cdev_start_failed add create g d h = ground arith

  close_xdma-Ends :
      (c : ProbeCalls) (g : Registry) (b : Board) (ret : Ret)
      → b.references ≡ 1
      → b.drvdata ≡ true
      → b.xdev ≡ true
      → b.video ≡ none
      → b.dropped ≡ none
      → b.cdev.added ≡ false
      → b.cdev.node ≡ false
      → is_set ret ≡ true
      → Ends c b.device_id (close_xdma g b ret)
  unfolding close_xdma
  close_xdma-Ends c g b ret r d x v o a n e = ground arith

  video_new_fine :
      (allocated : Bool)
      → allocated ≡ true
      → (v : Video) × (video_new allocated ≡ some v)
        × (v.registration ≡ released)
        × (v.user_job_ctrl.job_list ≡ [])
        × (v.user_job_ctrl.done_list ≡ [])
  unfolding video_new user_job_start
  video_new_fine true h = (_, refl, refl, refl, refl)
  video_new_fine false h = absurd (ground (arith, h))

  pci_cdev-Ends :
      (c : ProbeCalls) (g : Registry) (b : Board)
      → c.video_new ≡ true
      → c.device_create ≡ true
      → b.references ≡ 1
      → b.drvdata ≡ true
      → b.xdev ≡ true
      → b.video ≡ none
      → b.dropped ≡ none
      → Ends c b.device_id (pci_cdev c g b)
  unfolding pci_cdev
  pci_cdev-Ends c g b n cr r d x v o = elim (Bool-cases (is_set c.cdev_add)) [
    | inl e ↦
        let f = cdev_start_failed c.cdev_add c.device_create g b.cdev e in
        rw (f, e)
          (close_xdma-Ends c _
            (record b { cdev = record { minor = g.base; added = false; node = false } }) c.cdev_add
            r d x v o refl refl e)
    | inr e ↦
        let created =
          ap (λ k. cdev_start c.cdev_add k g b.cdev) cr ∙ cdev_start_fine c.cdev_add g b.cdev e in
        let (w, ew, wr, wj, wd) = video_new_fine c.video_new n in
        rw (created, ew)
          (pci_video-Ends c _
            (record b { cdev = record { minor = g.base; added = true; node = true } }) w wr wj wd r
            d x refl)
  ]

  xdma_open-keeps :
      (c : XdmaCalls) (b : Board)
      → let b' = (xdma_open c b).0 in
        (b'.references ≡ b.references)
        × (b'.drvdata ≡ b.drvdata)
        × (b'.device_id ≡ b.device_id)
        × (b'.cdev ≡ b.cdev)
        × (b'.video ≡ b.video)
        × (b'.dropped ≡ b.dropped)
  unfolding xdma_open
  xdma_open-keeps c b = ground arith

  pci_xdma-Ends :
      (c : ProbeCalls) (g : Registry) (b : Board)
      → c.video_new ≡ true
      → c.device_create ≡ true
      → b.references ≡ 1
      → b.drvdata ≡ true
      → b.xdev ≡ false
      → b.video ≡ none
      → b.dropped ≡ none
      → b.cdev.added ≡ false
      → b.cdev.node ≡ false
      → Ends c b.device_id (pci_xdma c g b)
  unfolding pci_xdma put_device
  pci_xdma-Ends c g b n cr r d x v o a nn =
      let (kr, kd, ki, kc, kv, ko) = xdma_open-keeps c.xdma b in
      elim (xdma_open_lem c.xdma b x) [
        | inl (u, ok, open_xdev, limits, h2c, c2h) ↦ rw ok (
            subst (λ i. Ends c i (pci_cdev c g (xdma_open c.xdma b).0)) ki
              (pci_cdev-Ends c g (xdma_open c.xdma b).0 n cr (kr ∙ r) (kd ∙ d) open_xdev (kv ∙ v)
                (ko ∙ o)))
        | inr (u, bad, closed, code) ↦ ground arith
      ]

  -- The board as the probe fills it in.
  abbrev described_board : ProbeCalls → Board
  described_board c = record new_board {
    drvdata = true;
    device_id = board_id c;
    user_max = max_user_irq;
    h2c_channel_max = xdma_channel_num_max;
    c2h_channel_max = xdma_channel_num_max;
  }

  pci_probe-pci_xdma :
      (c : ProbeCalls) (g : Registry)
      → c.device_new ≡ true
      → pci_probe c g ≡ pci_xdma c g (described_board c)
  unfolding pci_probe device_new
  pci_probe-pci_xdma c g d = ground arith

  -- A probe on PCI that gets its memory and its device node ends with the board in use, and then the board is one
  -- the driver knows; or it frees the board, and no libxdma handle, character device or registration of a video device is
  -- left of it. The result then is an error, or, on a board that the driver does not know, the length of the bus
  -- information, which the kernel does not take for an error. The driver data point to the freed board.
  pub pci_probe-Ends :
      (c : ProbeCalls) (g : Registry)
      → c.device_new ≡ true
      → c.video_new ≡ true
      → c.device_create ≡ true
      → Ends c (board_id c) (pci_probe c g)
  pci_probe-Ends c g d n cr =
      subst (Ends c (board_id c)) (sym (pci_probe-pci_xdma c g d))
        (pci_xdma-Ends c g (described_board c) n cr refl refl refl refl refl refl refl)

  -- A probe on PCI in which every call succeeds, on a board that the driver knows, followed by the removal of the
  -- board with no job listed, leaves nothing: the board is freed, its libxdma handle, character device and
  -- video device are gone, with all that was registered for the video device, and the driver data are cleared.
  pub pci_remove-pci_probe :
      (c : ProbeCalls) (g : Registry)
      → AllFine c
      → EndsGone (then_remove pci_remove [] [] (pci_probe c g))
  unfolding pci_probe pci_remove video_start
  pci_remove-pci_probe c g fine = ground arith

  -- A probe of the platform device in which every call succeeds, followed by its removal with no job listed, leaves
  -- nothing: the board is freed, its character device and video device are gone, and the driver data are cleared.
  pub platform_remove-platform_probe :
      (c : ProbeCalls) (g : Registry)
      → c.device_new ≡ true
      → c.cdev_add ≡ success
      → c.device_create ≡ true
      → c.video_new ≡ true
      → Succeeds c.video
      → EndsGone (then_remove platform_remove [] [] (platform_probe c g))
  unfolding platform_probe platform_remove video_start
  platform_remove-platform_probe c g d a cr n v = ground arith
