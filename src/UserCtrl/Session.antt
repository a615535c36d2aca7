-- ===== src/UserCtrl/Session.antt =====
-- The program of samples/05_user-ctrl/main.cpp around its accesses: opening and closing the node, and the commands
-- of its keys. What is printed is listed, an access that fails printing nothing.
pub mod Closures
pub mod Closed
pub mod Commands
use v4l2_tuto.Prelude.{
  ℕ, zero, suc, ◌*◌, ◌+◌, ◌%◌, Bool, true, false, ◌||◌, ◌==◌, Option, none, some, List, [], ◌∷◌,
  ◌++◌, bit_or, get_elem?, if◌then◌else◌,
}
use Prim.Native.Nat.{bit_xor}
use v4l2_tuto.DeferredTasks.{flush}
use v4l2_tuto.ZzUtils.{Tick, Outcome, goes, waits, undefined, test_loop}
use v4l2_tuto.Qvio.Pci.{Bar}
use v4l2_tuto.UserCtrl.{Access, access_slave, access_mcu}

-- `nFd` and `pMmap` (`none` is -1 and `MAP_FAILED`), and what was given and given back.
pub record Node : Type 0 where
  pub fd : Option ℕ
  pub map : Option ℕ
  pub opened : List ℕ
  pub closed : List ℕ
  pub mapped : List ℕ
  pub unmapped : List ℕ

-- `struct UserCtrl`.
pub record Ctrl : Type 0 where
  pub node : Node
  pub free_stack : List (Node → Node)

-- The closures of `UserCtrl::Open`, which read `nFd` and `pMmap` when they run; -1 and `MAP_FAILED` are refused.
abbrev pub close_node : Node → Node
close_node n = elim n.fd [
  | none ↦ n
  | some fd ↦ record n { closed = n.closed ++ fd ∷ []; fd = none }
]

abbrev pub unmap_node : Node → Node
unmap_node n = elim n.map [ none ↦ n | some p ↦ record n { unmapped = n.unmapped ++ p ∷ [] } ]

-- The `mmap` of `UserCtrl::Open`.
unfoldable pub map_node : (address : Option ℕ) → Ctrl → Bool × Ctrl
map_node none c = (false, record c { node = record (c.node) { map = none } })
map_node (some p) c = (
  true,
  record {
    node = record (c.node) { map = some p; mapped = c.node.mapped ++ p ∷ [] };
    free_stack = unmap_node ∷ c.free_stack;
  },
)

-- `UserCtrl::Open`, which opens again what is open; the result is whether it succeeded.
unfoldable pub open_ctrl : (opened address : Option ℕ) → Ctrl → Bool × Ctrl
unfolding map_node
open_ctrl none address c = (false, record c { node = record (c.node) { fd = none } })
open_ctrl (some fd) address c = map_node address (record {
  node = record (c.node) { fd = some fd; opened = c.node.opened ++ fd ∷ [] };
  free_stack = close_node ∷ c.free_stack;
})

-- `UserCtrl::Close`.
unfoldable pub close_ctrl : Ctrl → Ctrl
unfolding flush
close_ctrl c = record { node = flush c.free_stack c.node; free_stack = [] }

-- `struct App`, with the board behind the node and what was printed.
pub record App (M : Type 0) : Type 0 where
  pub user_ctrl : Ctrl
  pub free_stack : List (Ctrl → Ctrl)
  pub device : M
  pub printed : List ℕ

-- `offsetof(HDMI20_INTERFACE, function_name.resolution)` and `sizeof(MCU_RESOLUCTION)`, packed.
abbrev pub resolution_offset : ℕ
resolution_offset = 4

abbrev pub resolution_size : ℕ
resolution_size = 60

-- A field of two bytes of the resolution, the low one first, and one of a byte.
abbrev pub byte_at : List ℕ → ℕ → ℕ
byte_at bs i = elim (get_elem? bs i) [ none ↦ 0 | some b ↦ b ]

abbrev pub short_at : List ℕ → ℕ → ℕ
short_at bs i = byte_at bs i + byte_at bs (suc i) * 256

-- `vtotal` to `audiosamplerate`; the last argument, `colorformat`, has no place in the format string.
abbrev pub resolution : List ℕ → List ℕ
resolution bs =
    short_at bs 0
    ∷ short_at bs 2
    ∷ short_at bs 4
    ∷ short_at bs 6
    ∷ byte_at bs 8
    ∷ byte_at bs 9
    ∷ byte_at bs 10
    ∷ []

-- What `open` and `mmap` return when the node is opened.
pub record OpenCalls : Type 0 where
  pub opened : Option ℕ
  pub address : Option ℕ

is_command : ℕ → Bool
is_command ch =
    ch == b'1' || ch == b'2' || ch == b'3' || ch == b'4' || ch == b'5' || ch == b'6' || ch == b'7'

-- The changes of registers by `UserCtrl5`, `UserCtrl6` and `UserCtrl7`.
abbrev pub flip_4 : ℕ → ℕ
flip_4 w = bit_xor w 0x10

abbrev pub flip_20 : ℕ → ℕ
flip_20 w = bit_xor w 0x100000

abbrev pub switch : ℕ → ℕ
switch w = bit_xor (bit_or w 0x4110) 1

module _ {M : Type 0} (bar : Bar M) where
  abbrev pub print : List ℕ → M → App M → App M
  print vs m a = record a { printed = a.printed ++ vs; device = m }

  -- `App::OpenUserCtrl`.
  unfoldable pub open_user_ctrl : (opened address : Option ℕ) → App M → App M
  unfolding open_ctrl
  open_user_ctrl opened address a =
      let (ok, c) = open_ctrl opened address a.user_ctrl in
      if ok
      then record a { user_ctrl = c; free_stack = close_ctrl ∷ a.free_stack }
      else record a { user_ctrl = c }

  -- `App::UserCtrl1` and `App::UserCtrl4`, which print registers.
  unfoldable pub user_ctrl1 : App M → App M
  user_ctrl1 a = let (w, m) = bar.ioread32 0x8 a.device in print (w ∷ []) m a

  unfoldable pub user_ctrl4 : App M → App M
  user_ctrl4 a =
      let (v, m) = bar.ioread32 0xEC a.device in
      let (w, m') = bar.ioread32 0xD0 m in print (v ∷ w ∷ []) m' a

  -- A register is read, changed and written back.
  change_register : (offset : ℕ) → (ℕ → ℕ) → App M → App M
  change_register offset f a =
      let (w, m) = bar.ioread32 offset a.device in print (f w ∷ []) (bar.iowrite32 (f w) offset m) a

  -- `App::UserCtrl5`, `App::UserCtrl6` and `App::UserCtrl7`.
  unfoldable pub user_ctrl5 : App M → App M
  unfolding change_register
  user_ctrl5 a = change_register 0xEC flip_4 a

  unfoldable pub user_ctrl6 : App M → App M
  unfolding change_register
  user_ctrl6 a = change_register 0xEC flip_20 a

  unfoldable pub user_ctrl7 : App M → App M
  unfolding change_register
  user_ctrl7 a = change_register 0xD0 switch a

  -- `App::UserCtrl2`; the buffer for the proxy is never overrun here.
  finish_mcu : Option (Access M) → App M → Outcome (App M)
  finish_mcu none a = undefined
  finish_mcu (some r) a = goes (print (if r.is_success then r.rx else []) r.device a)

  unfoldable pub user_ctrl2 : App M → Outcome (App M)
  unfolding finish_mcu access_mcu
  user_ctrl2 a = finish_mcu (access_mcu bar 0x55 (0x12 ∷ 0x34 ∷ 0x57 ∷ []) 3 a.device) a

  -- `App::UserCtrl3`.
  unfoldable pub user_ctrl3 : App M → App M
  unfolding access_slave
  user_ctrl3 a =
      let r = access_slave bar 0x32 (resolution_offset ∷ []) resolution_size a.device in
      print (if r.is_success then resolution r.rx else []) r.device a

  -- The commands on the mapped registers.
  unfoldable pub command : ℕ → App M → Outcome (App M)
  unfolding user_ctrl1 user_ctrl2 user_ctrl3 user_ctrl4 user_ctrl5 user_ctrl6 user_ctrl7
  command ch a =
      if ch == b'1'
      then goes (user_ctrl1 a)
      else if ch == b'2'
      then user_ctrl2 a
      else if ch == b'3'
      then goes (user_ctrl3 a)
      else if ch == b'4'
      then goes (user_ctrl4 a)
      else if ch == b'5'
      then goes (user_ctrl5 a)
      else if ch == b'6'
      then goes (user_ctrl6 a)
      else goes (user_ctrl7 a)

  -- The function that `Run` passes to `TestLoop`; a register that is not mapped is undefined.
  unfoldable pub idle : Option ℕ → OpenCalls → App M → Outcome (App M)
  unfolding open_user_ctrl is_command command
  idle none k a = goes a
  idle (some ch) k a =
      if ch == b'r' || ch == b'R'
      then goes (open_user_ctrl k.opened k.address a)
      else if is_command ch
      then elim a.user_ctrl.node.map [ none ↦ undefined | some p ↦ command ch a ]
      else goes a

  unfoldable pub finish : Outcome (App M) → Outcome (App M)
  unfolding flush close_ctrl
  finish (goes a) = goes (record a { user_ctrl = flush a.free_stack a.user_ctrl; free_stack = [] })
  finish (waits a) = waits a
  finish undefined = undefined

  abbrev pub begin : M → App M
  begin m = record {
    user_ctrl = record {
      node = record { fd = none; map = none; opened = []; closed = []; mapped = []; unmapped = [] };
      free_stack = [];
    };
    free_stack = [];
    device = m;
    printed = [];
  }

  -- `App::Run`.
  unfoldable pub run : List (Tick × OpenCalls) → M → Outcome (App M)
  unfolding idle test_loop finish
  run ts m = finish (test_loop idle ts (begin m))
