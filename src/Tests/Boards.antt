-- ===== src/Tests/Boards.antt =====
-- Boards and the module qdmabuf at concrete inputs.
use v4l2_tuto.Prelude.{
  List, ℕ, ◌≡◌, ◌⊎◌, ◌+◌, ◌*◌, ◌^◌, ◌<◌, ◌≤◌, true, false, none, some, [], ◌∷◌, refl, arith, inr,
  update,
}
use v4l2_tuto.ZzUtils.{Tick, pressed, Outcome, goes, waits, undefined}
use v4l2_tuto.UserCtrl.Session
use v4l2_tuto.UserCtrl.Session.{OpenCalls, App}
use v4l2_tuto.Kernel.{success, neg, einval, value}
use v4l2_tuto.Tests.{kernel_align}
use v4l2_tuto.Cdev.{Registry}
use v4l2_tuto.Qvio.Video.Start.{StartCalls}
use v4l2_tuto.Qvio.Board.{XdmaCalls}
use v4l2_tuto.Qvio.Board.Probe.{ProbeCalls, pci_probe, pci_remove}
use v4l2_tuto.Qvio.Board.Probe.Balance.{
  AllFine, board_id, EndsGone, Ends, then_remove, pci_probe-Ends, pci_remove-pci_probe,
}
use v4l2_tuto.Qvio.Pci.{Bar, Area, file_mmap}
use v4l2_tuto.Qvio.Pci.Access.{
  IsArea, IsMemory, read_all, write_all, file_mmap-bounds, read_all-write_all,
}
use v4l2_tuto.UserCtrl.{access_i2c}
use v4l2_tuto.UserCtrl.Protocol.{logged, IsSilent, access_i2c_frames, access_i2c_silent}
use v4l2_tuto.Qdmabuf.Device
use v4l2_tuto.Qdmabuf.Device.Loaded
use v4l2_tuto.Qdmabuf.Device.{probe, Module, InitCalls, mod_init, mod_exit}
use v4l2_tuto.Qdmabuf.Device.Loaded.{probe-Ends, IsUnloaded, IsLoaded, mod_exit-mod_init_balanced}

abbrev registry : Registry
registry = record { class = true; region = true; base = 2 }

abbrev started : StartCalls
started = record {
  device_register = success;
  queue_init = success;
  device_alloc = true;
  register_device = success;
}

abbrev opened : XdmaCalls
opened = record {
  opened = true;
  user_max = 16;
  h2c_channel_max = 2;
  c2h_channel_max = 2;
  isr_enable = λ mask. success;
  found = true;
  same = true;
}

abbrev known_board : ProbeCalls
known_board = record {
  device_new = true;
  subsystem_vendor = 0xF757;
  subsystem_device = 0x0601;
  bus_info = "PCI:0000:01:00.0";
  name_length = 16;
  xdma = opened;
  cdev_add = success;
  device_create = true;
  video_new = true;
  video = started;
}

-- A board that the driver does not know.
abbrev other_board : ProbeCalls
other_board = record known_board { subsystem_device = 0x0602 }

known_board-AllFine : AllFine known_board
known_board-AllFine = record {
  device_new = refl;
  usable = record {
    opened = refl;
    irqs = omega arith;
    h2c = omega arith;
    c2h = omega arith;
    enabled = inr refl;
    found = refl;
    same = refl;
  };
  cdev_add = refl;
  device_create = refl;
  video_new = refl;
  video = record {
    device_register = refl;
    queue_init = refl;
    device_alloc = refl;
    register_device = refl;
  };
  supported = refl;
}

pci_remove-pci_probe_example :
    EndsGone (then_remove pci_remove [] [] (pci_probe known_board registry))
pci_remove-pci_probe_example = pci_remove-pci_probe known_board registry known_board-AllFine

pci_probe-Ends_example : Ends other_board (board_id other_board) (pci_probe other_board registry)
pci_probe-Ends_example = pci_probe-Ends other_board registry refl refl refl

-- A BAR of 64 KiB; the last page of it.
abbrev last_page : Area
last_page = record {
  bar_start = 0xF000_0000;
  bar_end = 0xF000_FFFF;
  vm_start = 0x7F00_0000_0000;
  vm_end = 0x7F00_0000_1000;
  vm_pgoff = 15;
}

last_page-IsArea : IsArea 0x10000 last_page
last_page-IsArea = record {
  start = omega arith;
  last = refl;
  short = omega arith;
  ends = omega arith;
  order = omega arith;
  pages = omega arith;
}

file_mmap-bounds_example :
    (((15 * 4096 + 4096 ≤ 0x10000)
        ⊎ ((0x10000 < 15 * 4096) × (4096 + 15 * 4096 ≤ 2 ^ 64 + 0x10000)))
      × (file_mmap success last_page ≡ (some (record { pfn = 0xF000F; size = 4096 }), success)))
    ⊎ ((0x10000 < 15 * 4096 + 4096)
        × ((15 * 4096 ≤ 0x10000) ⊎ (2 ^ 64 + 0x10000 < 4096 + 15 * 4096))
        × (file_mmap success last_page ≡ (none, neg einval)))
file_mmap-bounds_example = file_mmap-bounds 0x10000 last_page last_page-IsArea

-- Registers that keep what is written.
abbrev memory : Bar (ℕ → ℕ)
memory = record { ioread32 = λ a m. (m a, m); iowrite32 = λ w a m. update m a w }

memory-IsMemory : IsMemory memory
memory-IsMemory = record {
  read_silent = λ a m. refl;
  read_same = λ a w m. ground arith;
  read_other = λ a b w m h. ground arith;
}

read_all-write_all_example :
    read_all memory 2 4 0x40 (write_all memory (7 ∷ 9 ∷ []) 1 0x40 (λ a. 0))
    ≡ (value 4, some 7) ∷ (value 4, some 9) ∷ []
read_all-write_all_example =
    read_all-write_all memory memory-IsMemory (7 ∷ 9 ∷ []) 1 4 0x40 (λ a. 0) refl

abbrev unloaded : Module
unloaded = record {
  registry = record { class = false; region = false; base = 0 };
  driver = false;
  pdev = false;
  pdev_added = false;
}

unloaded-IsUnloaded : IsUnloaded unloaded
unloaded-IsUnloaded = record {
  no_class = refl;
  no_region = refl;
  no_driver = refl;
  no_pdev = refl;
  not_added = refl;
}

-- The platform device cannot be added.
abbrev refused : InitCalls
refused = record {
  class_create = true;
  alloc_region = success;
  driver_register = success;
  pdev_alloc = true;
  pdev_add = neg einval;
}

-- A device node that cannot be made.
abbrev no_node : Device.ProbeCalls
no_node = record { allocated = true; cdev_add = success; device_create = false }

probe-Ends_example : Loaded.Ends no_node (probe no_node registry)
probe-Ends_example = probe-Ends no_node registry

access_i2c_frames_example :
    (access_i2c (logged memory) 0x62 (0x10 ∷ 0x20 ∷ []) 1 ((λ a. 0), [])).device.1
    ≡ (0x3100, 2)
      ∷ (0x3100, 1)
      ∷ (0x3108, 0x162)
      ∷ (0x3108, 0x10)
      ∷ (0x3108, 0x20)
      ∷ (0x3120, 15)
      ∷ (0x3100, 2)
      ∷ (0x3100, 0)
      ∷ (0x3108, 0x163)
      ∷ (0x3108, 0x201)
      ∷ (0x3100, 1)
      ∷ []
access_i2c_frames_example = access_i2c_frames memory 0x62 (0x10 ∷ 0x20 ∷ []) 1 (λ a. 0)

-- Every register reads as an empty receive FIFO.
abbrev empty_fifo : Bar ℕ
empty_fifo = record { ioread32 = λ a m. (0x40, m); iowrite32 = λ w a m. m }

empty_fifo-IsSilent : IsSilent empty_fifo
empty_fifo-IsSilent = record { status = λ m. refl }

access_i2c_silent_example :
    ((access_i2c empty_fifo 0x66 [] 3 0).is_success ≡ true)
    × ((access_i2c empty_fifo 0x66 [] 3 0).rx ≡ 0 ∷ 1 ∷ 2 ∷ [])
access_i2c_silent_example = access_i2c_silent empty_fifo empty_fifo-IsSilent 0x66 2 [] 0

-- The node is opened twice, a bit is flipped, and `q` ends the program.
abbrev opens : (fd address : ℕ) → Tick × OpenCalls
opens fd address = (pressed (some b'r'), record { opened = some fd; address = some address })

abbrev commands : List (Tick × OpenCalls)
commands =
    opens 3 65536
    ∷ opens 4 131072
    ∷ (pressed (some b'5'), record { opened = none; address = none })
    ∷ (pressed (some b'q'), record { opened = none; address = none })
    ∷ []

abbrev closed_and_unmapped : Outcome (App (ℕ → ℕ)) → List ℕ × List ℕ × List ℕ
closed_and_unmapped (goes a) = (a.user_ctrl.node.closed, a.user_ctrl.node.unmapped, a.printed)
closed_and_unmapped (waits a) = ([], [], [])
closed_and_unmapped undefined = ([], [], [])

commands_closed :
    closed_and_unmapped (Session.run memory commands (λ a. 0))
    ≡ (4 ∷ [], 131072 ∷ 131072 ∷ [], 16 ∷ [])
unfolding Session.run
commands_closed = refl
