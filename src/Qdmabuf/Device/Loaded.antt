-- ===== src/Qdmabuf/Device/Loaded.antt =====
-- On the probe, the removal and the entry points of modules/qdmabuf.
use v4l2_tuto.Prelude.{◌≡◌, ◌⊎◌, true, false, arith}
use v4l2_tuto.Kernel.{success, is_set}
use v4l2_tuto.Cdev.{Registry}
use v4l2_tuto.Qdmabuf.Device.{
  Device, ProbeCalls, Probed, fault, probed, probe, remove, Module, InitCalls, mod_init, mod_exit,
}

-- A device that is freed, with no character device left.
pub record IsFreed (d : Device) : Type 0 where
  pub freed : d.references ≡ 0
  pub removed : d.cdev.added ≡ false
  pub no_node : d.cdev.node ≡ false

abbrev pub EndsFreed : Probed → Type 0
EndsFreed fault = ⊥
EndsFreed (probed g d ret) = (ret ≡ success) × IsFreed d

-- How a probe ends, with the removal that follows a success.
abbrev pub Ends : ProbeCalls → Probed → Type 0
Ends c fault = c.allocated ≡ false
Ends c (probed g d ret) =
    ((ret ≡ success)
      × (d.references ≡ 1)
      × (d.cdev.added ≡ true)
      × (c.device_create ≡ true)
      × EndsFreed (remove g d))
    ⊎ ((is_set ret ≡ true) × IsFreed d)
    ⊎ ((ret ≡ success) × (d.references ≡ 1) × (c.device_create ≡ false) × (remove g d ≡ fault))

-- A probe of qdmabuf without memory writes through a null pointer. Any other either succeeds, with the device
-- held once and its character device there, and then the removal frees both; or fails and leaves
-- nothing; or, where the device node could not be made, reports success without a character device, and
-- then the removal removes what was never added.
pub probe-Ends : (c : ProbeCalls) (g : Registry) → Ends c (probe c g)
unfolding probe remove
probe-Ends c g = ground arith

-- A module that holds nothing.
pub record IsUnloaded (s : Module) : Type 0 where
  pub no_class : s.registry.class ≡ false
  pub no_region : s.registry.region ≡ false
  pub no_driver : s.driver ≡ false
  pub no_pdev : s.pdev ≡ false
  pub not_added : s.pdev_added ≡ false

-- A module that is loaded.
pub record IsLoaded (s : Module) : Type 0 where
  pub class : s.registry.class ≡ true
  pub region : s.registry.region ≡ true
  pub driver : s.driver ≡ true
  pub pdev : s.pdev ≡ true
  pub added : s.pdev_added ≡ true

-- Loading qdmabuf either succeeds, with the class, the device numbers, the driver and the platform device
-- there, and then unloading it leaves nothing; or it fails and leaves nothing.
pub mod_exit-mod_init_balanced :
    (c : InitCalls) (s : Module)
    → IsUnloaded s
    → (((mod_init c s).1 ≡ success)
        × IsLoaded (mod_init c s).0
        × IsUnloaded (mod_exit (mod_init c s).0))
      ⊎ ((is_set (mod_init c s).1 ≡ true) × IsUnloaded (mod_init c s).0)
unfolding mod_init mod_exit
mod_exit-mod_init_balanced c s u = ground arith
