-- ===== src/Qvio/Pci/Recovery.antt =====
-- On the error handlers of modules/qvio/pci_device.c and the entry points of modules/qvio/module.c.
use v4l2_tuto.Prelude.{◌≢◌, ◌≡◌, ◌⊎◌, Bool, true, false, arith}
use v4l2_tuto.Kernel.{Ret, success, is_set}
use v4l2_tuto.Qvio.Pci.{
  ChannelState, io_frozen, disconnect, need_reset, recovered, Link, error_detected, slot_reset,
  Module, mod_init, mod_exit,
}

-- A module that holds nothing.
pub record IsUnloaded (s : Module) : Type 0 where
  pub no_class : s.registry.class ≡ false
  pub no_region : s.registry.region ≡ false
  pub no_driver : s.driver ≡ false

-- A module that is loaded.
pub record IsLoaded (s : Module) : Type 0 where
  pub class : s.registry.class ≡ true
  pub region : s.registry.region ≡ true
  pub driver : s.driver ≡ true

-- Loading qvio either succeeds, with the class, the device numbers and the driver registered, and then
-- unloading it leaves nothing registered; or it fails and leaves nothing registered.
pub mod_exit-mod_init :
    (class_create : Bool) (alloc_region register : Ret) (s : Module)
    → IsUnloaded s
    → (((mod_init class_create alloc_region register s).1 ≡ success)
        × IsLoaded (mod_init class_create alloc_region register s).0
        × IsUnloaded (mod_exit (mod_init class_create alloc_region register s).0))
      ⊎ ((is_set (mod_init class_create alloc_region register s).1 ≡ true)
          × IsUnloaded (mod_init class_create alloc_region register s).0)
unfolding mod_init mod_exit
mod_exit-mod_init class_create alloc_region register s u = ground arith

-- A frozen channel takes libxdma offline and disables the device, and asks for a reset. The reset then brings
-- everything back if the device can be enabled, whatever the link was; else the board is given up, offline
-- and disabled. Only a frozen channel changes the link.
pub slot_reset-error_detected :
    (st : ChannelState) (e : Ret) (l : Link)
    → (((st ≡ io_frozen)
          × ((error_detected st l).1 ≡ need_reset)
          × ((error_detected st l).0 ≡ record { online = false; enabled = false; master = false }))
        ⊎ ((st ≢ io_frozen) × ((error_detected st l).0 ≡ l)))
      × (((is_set e ≡ false)
            × (slot_reset e (error_detected st l).0
                ≡ (record { online = true; enabled = true; master = true }, recovered)))
          ⊎ ((is_set e ≡ true)
              × (slot_reset e (error_detected st l).0 ≡ ((error_detected st l).0, disconnect))))
unfolding error_detected slot_reset
slot_reset-error_detected st e l = ground arith
