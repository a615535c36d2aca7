-- ===== src/Qdmabuf/Device.antt =====
-- modules/qdmabuf/device.c and modules/qdmabuf/module.c: the only device of the module, its probe and its removal,
-- and the module's entry points. What the kernel's calls return is an argument.
pub mod Loaded
use v4l2_tuto.Prelude.{ℕ, ◌+◌, ◌-◌, ◌==◌, Bool, true, false, not, Option, none, some, if◌then◌else◌}
use v4l2_tuto.Kernel.{enomem, Ret, neg, success, is_set}
use v4l2_tuto.Cdev.{Registry, cdev_register, cdev_unregister, Cdev, cdev_start, cdev_stop}

-- `struct qdmabuf_device`; the count is 0 once it is freed.
pub record Device : Type 0 where
  pub references : ℕ
  pub cdev : Cdev

-- `qdmabuf_cdev_init`.
abbrev pub cdev_init : Cdev
cdev_init = record { minor = 0; added = false; node = false }

-- `qdmabuf_device_new`; `none` is a write through the null pointer, which is not tested.
unfoldable pub device_new : (allocated : Bool) → Option Device
device_new allocated =
    if allocated then some (record { references = 1; cdev = cdev_init }) else none

-- `qdmabuf_device_get` and `qdmabuf_device_put`; `none` is a reference that is not there.
unfoldable pub device_get : Device → Device
device_get d = record d { references = d.references + 1 }

unfoldable pub device_put : Device → Option Device
device_put d = if d.references == 0 then none else some (record d { references = d.references - 1 })

-- `qdmabuf_device_start` and `qdmabuf_device_stop`.
abbrev pub device_start : Device → Device × Ret
device_start d = (d, success)

abbrev pub device_stop : Device → Device
device_stop d = d

-- How a probe or a removal ends: with a use of memory that is not there, or in order.
pub data Probed : Type 0 where
  fault : Probed
  probed : Registry → Device → Ret → Probed

-- The calls of a probe.
pub record ProbeCalls : Type 0 where
  pub allocated : Bool
  pub cdev_add : Ret
  pub device_create : Bool

-- `err1` of `__probe`.
put_device : Registry → Device → Ret → Probed
unfolding device_put
put_device g d ret = elim (device_put d) [ none ↦ fault | some d' ↦ probed g d' ret ]

-- `err2`, with what follows it; also the end of `__remove`.
stop_cdev : Registry → Device → Ret → Probed
unfolding cdev_stop put_device
stop_cdev g d ret = elim (cdev_stop d.cdev) [
  | none ↦ fault
  | some e ↦ put_device g (record d { cdev = e }) ret
]

-- From `qdmabuf_cdev_start` on.
probe_cdev : ProbeCalls → Registry → Device → Probed
unfolding cdev_start stop_cdev put_device
probe_cdev c g d =
    let (g', e, err) = cdev_start c.cdev_add c.device_create g d.cdev in
    if is_set err
    then put_device g' (record d { cdev = e }) err
    else let (d', err') = device_start (record d { cdev = e }) in
      if is_set err' then stop_cdev g' d' err' else probed g' d' err'

-- `__probe`.
unfoldable pub probe : ProbeCalls → Registry → Probed
unfolding probe_cdev device_new
probe c g = elim (device_new c.allocated) [ none ↦ fault | some d ↦ probe_cdev c g d ]

-- `__remove`.
unfoldable pub remove : Registry → Device → Probed
unfolding stop_cdev
remove g d = stop_cdev g (device_stop d) success

-- What the module holds: the registry of its character devices, its driver, and its platform device, which is
-- there once it is allocated and known to the kernel once it is added.
pub record Module : Type 0 where
  pub registry : Registry
  pub driver : Bool
  pub pdev : Bool
  pub pdev_added : Bool

-- The calls of `qdmabuf_mod_init`.
pub record InitCalls : Type 0 where
  pub class_create : Bool
  pub alloc_region : Ret
  pub driver_register : Ret
  pub pdev_alloc : Bool
  pub pdev_add : Ret

-- `qdmabuf_device_register` and `qdmabuf_device_unregister`.
unfoldable pub device_register : Ret → Module → Module × Ret
device_register err s = if is_set err then (s, err) else (record s { driver = true }, err)

unfoldable pub device_unregister : Module → Module
device_unregister s = record s { driver = false }

-- The labels of `qdmabuf_mod_init`, each falling through to the one before.
init_err1 : Module → Ret → Module × Ret
unfolding cdev_unregister
init_err1 s ret = (record s { registry = cdev_unregister s.registry }, ret)

init_err2 : Module → Ret → Module × Ret
unfolding device_unregister init_err1
init_err2 s ret = init_err1 (device_unregister s) ret

init_err3 : Module → Ret → Module × Ret
unfolding init_err2
init_err3 s ret = init_err2 (record s { pdev = false }) ret

-- From `platform_device_alloc` on.
init_pdev : InitCalls → Module → Module × Ret
unfolding init_err2 init_err3
init_pdev c s =
    if not c.pdev_alloc
    then init_err2 s (neg enomem)
    else if is_set c.pdev_add
    then init_err3 (record s { pdev = true }) (neg enomem)
    else (record s { pdev = true; pdev_added = true }, c.pdev_add)

-- `qdmabuf_mod_init`.
unfoldable pub mod_init : InitCalls → Module → Module × Ret
unfolding init_pdev init_err1 device_register cdev_register
mod_init c s =
    let (g, err) = cdev_register c.class_create c.alloc_region s.registry in
    if is_set err
    then (record s { registry = g }, err)
    else let (s', err') = device_register c.driver_register (record s { registry = g }) in
      if is_set err' then init_err1 s' err' else init_pdev c s'

-- `qdmabuf_mod_exit`.
unfoldable pub mod_exit : Module → Module
unfolding device_unregister cdev_unregister
mod_exit s =
    let s' : Module = device_unregister (record s { pdev = false; pdev_added = false }) in
    record s' { registry = cdev_unregister s'.registry }
