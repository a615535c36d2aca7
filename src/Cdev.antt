-- ===== src/Cdev.antt =====
-- modules/qvio/cdev.c, and modules/qdmabuf/cdev.c where it does the same: the class, the range of numbers,
-- and the character device of each board. What the kernel's calls return is an argument.
use v4l2_tuto.Prelude.{ℕ, ◌+◌, Bool, true, false, not, Option, none, some, if◌then◌else◌}
use v4l2_tuto.Kernel.{einval, Ret, neg, success, is_set}

-- `g_class`, the range of `alloc_chrdev_region`, and `g_cdevno_base`.
pub record Registry : Type 0 where
  pub class : Bool
  pub region : Bool
  pub base : ℕ

-- `qvio_cdev_register`.
unfoldable pub cdev_register :
    (class_create : Bool) → (alloc_region : Ret) → Registry → Registry × Ret
cdev_register class_create alloc_region g =
    if not class_create
    then (g, neg einval)
    else if is_set alloc_region
    then (record g { class = false }, alloc_region)
    else (record { class = true; region = true; base = 0 }, alloc_region)

-- `qvio_cdev_unregister`.
unfoldable pub cdev_unregister : Registry → Registry
cdev_unregister g = record g { class = false; region = false }

-- `struct qvio_cdev`: its minor number, and whether it is added and has a node.
pub record Cdev : Type 0 where
  pub minor : ℕ
  pub added : Bool
  pub node : Bool

-- `qvio_cdev_start`. If `device_create` fails, `err` is still the 0 of `cdev_add`.
unfoldable pub cdev_start :
    (cdev_add : Ret) → (device_create : Bool) → Registry → Cdev → Registry × Cdev × Ret
cdev_start cdev_add device_create g d =
    let g' : Registry = record g { base = g.base + 1 } in
    if is_set cdev_add
    then (g', record { minor = g.base; added = false; node = false }, cdev_add)
    else if not device_create
    then (g', record { minor = g.base; added = false; node = false }, cdev_add)
    else (g', record { minor = g.base; added = true; node = true }, success)

-- `qvio_cdev_stop`. A node that is not there is passed over by `device_destroy`; `none` is `cdev_del` of
-- a device that is not added.
unfoldable pub cdev_stop : Cdev → Option Cdev
cdev_stop d = if d.added then some (record d { added = false; node = false }) else none
