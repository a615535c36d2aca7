-- ===== src/Qvio/Platform.antt =====
-- The registration of modules/qvio/platform_device.c: its driver and its platform device. What the kernel's calls return
-- is an argument.
use v4l2_tuto.Prelude.{◌≡◌, refl, Bool, true, false, Bool-cases, inl, inr, not, if◌then◌else◌}
use v4l2_tuto.Kernel.{enomem, Ret, neg, success, is_set}

-- The driver, and `pdev_qvio`, which is there once it is allocated and known to the kernel once it is added.
pub record Platform : Type 0 where
  pub driver : Bool
  pub pdev : Bool
  pub pdev_added : Bool

abbrev pub unregistered : Platform
unregistered = record { driver = false; pdev = false; pdev_added = false }

-- The labels of `qvio_device_platform_register`, each falling through to the one before.
register_err1 : Platform → Ret → Platform × Ret
register_err1 s err = (record s { driver = false }, err)

register_err2 : Platform → Ret → Platform × Ret
unfolding register_err1
register_err2 s err = register_err1 (record s { pdev = false }) err

-- `qvio_device_platform_register`.
unfoldable pub platform_register :
    (driver_register : Ret) → (pdev_alloc : Bool) → (pdev_add : Ret) → Platform → Platform × Ret
unfolding register_err1 register_err2
platform_register driver_register pdev_alloc pdev_add s =
    if is_set driver_register
    then (s, driver_register)
    else if not pdev_alloc
    then register_err1 (record s { driver = true }) (neg enomem)
    else if is_set pdev_add
    then register_err2 (record s { driver = true; pdev = true }) (neg enomem)
    else (record s { driver = true; pdev = true; pdev_added = true }, success)

-- `qvio_device_platform_unregister`.
unfoldable pub platform_unregister : Platform → Platform
platform_unregister s =
    let removed : Platform = record s { pdev_added = false } in
    let put : Platform = record removed { pdev = false } in record put { driver = false }

-- A registration succeeds with the driver and the device there, or ends with an error and leaves neither.
abbrev pub Registered : Platform × Ret → Type 0
Registered (s, r) = elim (is_set r) [
  | true ↦ s ≡ unregistered
  | false ↦ s ≡ record { driver = true; pdev = true; pdev_added = true }
]

pub platform_register-Registered :
    (driver_register : Ret) (pdev_alloc : Bool) (pdev_add : Ret)
    → Registered (platform_register driver_register pdev_alloc pdev_add unregistered)
unfolding platform_register
platform_register-Registered driver_register false pdev_add =
    elim (Bool-cases (is_set driver_register)) [ inl e ↦ rw (e, e) refl | inr e ↦ rw e refl ]
platform_register-Registered driver_register true pdev_add =
    elim (Bool-cases (is_set driver_register)) [
      | inl e ↦ rw (e, e) refl
      | inr e ↦ elim (Bool-cases (is_set pdev_add)) [
        | inl f ↦ rw (e, f) refl
        | inr f ↦ rw (e, f) refl
      ]
    ]
