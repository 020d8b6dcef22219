-- ===== src/Driver/Kilo/Registered.antt =====
-- kilo_0 (driver/kilo/kilo_0.c) passes the tester's check of the device information block
-- (tester/st_dib.c).
use v_spells_nand_use_case.Prelude.{ℕ, suc, ◌<◌, ◌≡◌, ◌≢◌, refl, arith, some, ◌==◌, false, true}
use v_spells_nand_use_case.Outcome.{ok, ◌>>=◌}
use v_spells_nand_use_case.Host.{Host}
use v_spells_nand_use_case.Driver.Foxtrot.{interpreter}
use v_spells_nand_use_case.Driver.Interface.{success}
use v_spells_nand_use_case.Driver.Kilo.{
  kilo_storage_chip, kilo_controller_chip, kilo_device, link_storage, link_device,
  register_nand_device, get_driver,
}
use v_spells_nand_use_case.Framework.Dib.{
  Pointer, max_nand_devices, StorageChip, ControllerChip, NandDevice, Memory, Placed,
}
use v_spells_nand_use_case.Framework.Dib.Decision.{Settles-success}
use v_spells_nand_use_case.Framework.Dib.Frame.{IsPrivate, SameElsewhere, devices-frame}
use v_spells_nand_use_case.Framework.Dib.Spec.{link, IsDib, rebase}
use v_spells_nand_use_case.Framework.Dib.Single.{IsSingle, single-IsDevice}
use v_spells_nand_use_case.Framework.Dib.Verify.{verify_dib-Settles}
use v_spells_nand_use_case.Tester.Dib.{st_dib_test}

-- the memory holds the three nodes as a driver's program has them at first
pub record IsLoaded (chip : StorageChip) (hub : ControllerChip) (top : NandDevice) (at : Placed)
    (m : Memory) : Type 0 where
  pub storage : m.storages at.storage ≡ chip
  pub controller : m.controllers at.controller ≡ hub
  pub device : m.devices at.device ≡ top

module _ (h : Host) (at : Placed) (m : Memory)
    (loaded : IsLoaded kilo_storage_chip (kilo_controller_chip h at) (kilo_device at) at m) where
  -- the memory once the device is linked
  pub linked : Pointer → Memory
  linked old_dib = link_device at old_dib (link_storage at m)

  linked-SameElsewhere : (old_dib : Pointer) → SameElsewhere at m (linked old_dib)
  unfolding linked
  linked-SameElsewhere old_dib = record {
    device = λ a other. let apart : (a == at.device) ≡ false = ground arith in rw apart refl;
    controller = λ a other. refl;
    storage = λ a other. let apart : (a == at.storage) ≡ false = ground arith in rw apart refl;
  }

  linked_storage :
      (old_dib : Pointer)
      → (linked old_dib).storages at.storage
        ≡ record kilo_storage_chip { controller = some at.controller }
  unfolding linked
  linked_storage old_dib =
      let here : (at.storage == at.storage) ≡ true = ground arith in rw (here, loaded.storage) refl

  linked_device :
      (old_dib : Pointer)
      → (linked old_dib).devices at.device ≡ record (kilo_device at) { next_device = old_dib }
  unfolding linked
  linked_device old_dib =
      let here : (at.device == at.device) ≡ true = ground arith in rw (here, loaded.device) refl

  linked_controller :
      (old_dib : Pointer) → (linked old_dib).controllers at.controller ≡ kilo_controller_chip h at
  unfolding linked
  linked_controller old_dib = loaded.controller

  linked-IsSingle : (old_dib : Pointer) → IsSingle (linked old_dib) at
  linked-IsSingle old_dib = record {
    next_storage = rw (linked_storage old_dib) refl;
    storage_link = rw (linked_storage old_dib) refl;
    storage_count = rw (linked_storage old_dib) refl;
    first_storage = rw (linked_controller old_dib) refl;
    last_storage = rw (linked_controller old_dib) refl;
    nstorage = rw (linked_controller old_dib) refl;
    controller_count = rw (linked_controller old_dib) refl;
    device_link = rw (linked_device old_dib) refl;
    device_count = rw (linked_device old_dib) refl;
  }

  -- the new block: the device, and the old block behind it
  linked-IsDib :
      (old : ℕ) (formed : IsDib m (some old))
      → formed.count < max_nand_devices
      → IsPrivate at m
      → old ≢ at.device
      → IsDib (linked (some old)) (some at.device)
  linked-IsDib old formed room private other = record {
    count = suc formed.count;
    last = formed.last;
    few = room;
    linked = link (single-IsDevice (linked-IsSingle (some old))) (
        rw (linked_device (some old)) (
          rebase (
            devices-frame private (linked-SameElsewhere (some old)) (λ e. other cc)
              formed.linked)));
  }

  pub registers :
      (old_dib : Pointer)
      → IsDib m old_dib
      → register_nand_device at m old_dib ≡ ok (some at.device, linked old_dib)
  unfolding register_nand_device linked
  registers old_dib formed = rw (Settles-success (verify_dib-Settles m old_dib) formed) refl

  pub linked-tested :
      (old : ℕ) (formed : IsDib m (some old))
      → formed.count < max_nand_devices
      → IsPrivate at m
      → old ≢ at.device
      → st_dib_test (linked (some old)) (some old) (some at.device) ≡ ok success
  unfolding st_dib_test
  linked-tested old formed room private other =
      let after =
        Settles-success (verify_dib-Settles (linked (some old)) (some at.device))
          (linked-IsDib old formed room private other) in
      rw (after, linked_device (some old)) (ground arith)

  -- kilo_0 accepts a well-formed block that is not empty, has room, and has none of the driver's nodes, and
  -- the tester's check of the block that it returns succeeds.
  pub register_nand_device-st_dib_test :
      (old : ℕ) (formed : IsDib m (some old))
      → formed.count < max_nand_devices
      → IsPrivate at m
      → old ≢ at.device
      → (register_nand_device at m (some old) >>= λ (dib_new, t). st_dib_test t (some old) dib_new)
        ≡ ok success
  register_nand_device-st_dib_test old formed room private other =
      rw (registers (some old) formed) (linked-tested old formed room private other)

  -- the driver that the framework then gets
  pub linked-get_driver : (old_dib : Pointer) → get_driver at (linked old_dib) ≡ ok (interpreter h)
  unfolding get_driver
  linked-get_driver old_dib = rw (linked_device old_dib, get_driver, linked_controller old_dib) refl
