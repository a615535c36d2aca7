-- ===== src/UserCtrl/Session/Closed.antt =====
-- On samples/05_user-ctrl/main.cpp: what the program closes and unmaps at its end.
use v4l2_tuto.UserCtrl.Session.{
  access_mcu, is_command, begin, run, finish, Access, OpenCalls, command, finish_mcu, idle, Bar,
  Ctrl, App, open_ctrl, close_ctrl, open_user_ctrl,
}
use v4l2_tuto.Prelude.{
  inr, ◌==◌, ◌||◌, either, ℕ, ◌≡◌, refl, Bool, true, false, Option, none, some, List, [], ◌∷◌,
  if◌then◌else◌,
}
use v4l2_tuto.ZzUtils.Always.{Always, test_loop-Always}
use v4l2_tuto.ZzUtils.{Tick, Outcome, goes, waits, undefined, test_loop}
use v4l2_tuto.UserCtrl.Session.Closures.{IsHeld, IsLast, Undone, held-Undone, open_ctrl-IsHeld}

module _ {M : Type 0} (bar : Bar M) where
  abbrev Holds : App M → Type 0
  Holds a = IsHeld a.user_ctrl a.free_stack

  stored-IsHeld :
      (ok : Bool) (c : Ctrl) (a : App M)
      → IsHeld c (if ok then close_ctrl ∷ a.free_stack else a.free_stack)
      → Holds (
          if ok
          then record a { user_ctrl = c; free_stack = close_ctrl ∷ a.free_stack }
          else record a { user_ctrl = c })
  stored-IsHeld true c a h = h
  stored-IsHeld false c a h = h

  opens-IsHeld :
      (opened address : Option ℕ) (a : App M)
      → Holds a
      → Holds (open_user_ctrl bar opened address a)
  unfolding open_user_ctrl
  opens-IsHeld opened address a h =
      let (ok, c) = open_ctrl opened address a.user_ctrl in
      stored-IsHeld ok c a (open_ctrl-IsHeld opened address a.user_ctrl a.free_stack h)

  mcu-Held : (r : Option (Access M)) (a : App M) → Holds a → Always Holds (finish_mcu bar r a)
  unfolding finish_mcu
  mcu-Held none a h = tt
  mcu-Held (some r) a h = h

  command-Held : (ch : ℕ) (a : App M) → Holds a → Always Holds (command bar ch a)
  unfolding command
  command-Held ch a h = either (Always Holds) (ch == b'1') h (
      either (Always Holds) (ch == b'2')
        (mcu-Held (access_mcu bar 0x55 (0x12 ∷ 0x34 ∷ 0x57 ∷ []) 3 a.device) a h)
        (either (Always Holds) (ch == b'3') h (
          either (Always Holds) (ch == b'4') h
            (either (Always Holds) (ch == b'5') h (either (Always Holds) (ch == b'6') h h)))))

  idle-Held :
      (key : Option ℕ) (k : OpenCalls) (a : App M) → Holds a → Always Holds (idle bar key k a)
  unfolding idle
  idle-Held none k a h = h
  idle-Held (some ch) k a h =
      either (Always Holds) (ch == b'r' || ch == b'R') (opens-IsHeld k.opened k.address a h) (
        either (Always Holds) (is_command ch)
          (elim a.user_ctrl.node.map
            as (λ p. Always Holds (elim p [ none ↦ undefined | some q ↦ command bar ch a ])) [
              | none ↦ tt
              | some q ↦ command-Held ch a h
            ])
          h)

  -- What the keys have led to, and how the run comes to its end or waits.
  abbrev pub Closes : Outcome (App M) → Outcome (App M) → Type 0
  Closes (goes a) (goes e) =
      Undone a.user_ctrl.node e.user_ctrl.node
      × IsLast a.user_ctrl.node.fd a.user_ctrl.node.opened
      × IsLast a.user_ctrl.node.map a.user_ctrl.node.mapped
  Closes (waits a) (waits e) =
      (e ≡ a) × (e.user_ctrl.node.closed ≡ []) × (e.user_ctrl.node.unmapped ≡ [])
  Closes undefined undefined = Unit
  Closes _ _ = ⊥

  finish-Closes : (o : Outcome (App M)) → Always Holds o → Closes o (finish bar o)
  unfolding finish
  finish-Closes (goes a) h = (held-Undone a.user_ctrl a.free_stack h, h.fd, h.map)
  finish-Closes (waits a) h = (refl, h.closed, h.unmapped)
  finish-Closes undefined h = tt

  begin-Holds : (m : M) → Holds (begin bar m)
  begin-Holds m = record {
    stack = [];
    kinds = refl;
    count = refl;
    fd = tt;
    map = tt;
    closed = refl;
    unmapped = refl;
    closes = (0, refl);
    number = refl;
    closing = inr refl;
  }

  pub run-Closes :
      (ts : List (Tick × OpenCalls)) (m : M)
      → Closes (test_loop (idle bar) ts (begin bar m)) (run bar ts m)
  unfolding run
  run-Closes ts m =
      finish-Closes (test_loop (idle bar) ts (begin bar m))
        (test_loop-Always Holds (idle bar) idle-Held ts (begin bar m) (begin-Holds m))
