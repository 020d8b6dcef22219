-- ===== src/Driver/Kilo/Bugs.antt =====
-- The drivers with an intended bug in what they add to the device information block (driver/kilo/kilo_1.c
-- to kilo_5.c). All else is as in kilo_0, but for `get_driver` of kilo_2 and kilo_3.
pub mod Laws
use v_spells_nand_use_case.Prelude.{ℕ, ◌+◌, none, some}
use v_spells_nand_use_case.Outcome.{Outcome, ok, stop, invalid_access}
use v_spells_nand_use_case.Host.{Host}
use v_spells_nand_use_case.Driver.Interface.{NandDriver, nand_exec_op}
use v_spells_nand_use_case.Driver.Kilo.{
  nand_controller_chip_count, nand_storage_chips_per_controller, exec_op, kilo_storage_chip,
  kilo_controller_chip, kilo_device, link_storage, link_device, register_if_formed,
  register_nand_device, get_driver,
}
use v_spells_nand_use_case.Framework.Dib.{
  Pointer, StorageChip, ControllerChip, NandDevice, Memory, Placed,
}

-- kilo_1: the old block is lost
unfoldable pub register_alone : Placed → Memory → Pointer → Outcome (Pointer × Memory)
register_alone at m old_dib =
    register_if_formed at m old_dib λ m. link_device at none (link_storage at m)

-- kilo_2: the device has no controller
abbrev pub bare_device : NandDevice
bare_device = record {
  controller = none;
  next_device = none;
  ref_count = nand_controller_chip_count + 1;
}

-- `get_driver` of kilo_2 and kilo_3
unfoldable pub get_driver_of_chip : Placed → Memory → NandDriver
get_driver_of_chip at m = elim (m.controllers at.controller).exec_op [
  | none ↦ nand_exec_op (λ _ _ _. stop invalid_access)
  | some run ↦ nand_exec_op run
]

-- kilo_3: the controller has no storage chip
abbrev pub empty_controller : Host → ControllerChip
empty_controller h = record {
  nstorage = nand_storage_chips_per_controller;
  first_storage = none;
  last_storage = none;
  exec_op = some (exec_op h);
  ref_count = nand_storage_chips_per_controller;
}

-- kilo_4: no node counts its references
abbrev pub uncounted_storage : StorageChip
uncounted_storage = record kilo_storage_chip { ref_count = 0 }

abbrev pub uncounted_controller : Host → Placed → ControllerChip
uncounted_controller h at = record (kilo_controller_chip h at) { ref_count = 0 }

abbrev pub uncounted_device : Placed → NandDevice
uncounted_device at = record (kilo_device at) { ref_count = 0 }

-- kilo_5: the controller has no last storage chip, and the chip gets no controller
abbrev pub open_controller : Host → Placed → ControllerChip
open_controller h at = record (kilo_controller_chip h at) { last_storage = none }

unfoldable pub register_loose : Placed → Memory → Pointer → Outcome (Pointer × Memory)
register_loose at m old_dib = register_if_formed at m old_dib λ m. link_device at old_dib m

-- the five drivers: their nodes, and how they register
pub data KiloBug : Type 0 where
  kilo_1 kilo_2 kilo_3 kilo_4 kilo_5 : KiloBug

abbrev pub storage_of : KiloBug → StorageChip
storage_of kilo_4 = uncounted_storage
storage_of _ = kilo_storage_chip

abbrev pub controller_of : KiloBug → Host → Placed → ControllerChip
controller_of kilo_3 h at = empty_controller h
controller_of kilo_4 h at = uncounted_controller h at
controller_of kilo_5 h at = open_controller h at
controller_of _ h at = kilo_controller_chip h at

abbrev pub device_of : KiloBug → Placed → NandDevice
device_of kilo_2 at = bare_device
device_of kilo_4 at = uncounted_device at
device_of _ at = kilo_device at

abbrev pub register_of : KiloBug → Placed → Memory → Pointer → Outcome (Pointer × Memory)
register_of kilo_1 at m old_dib = register_alone at m old_dib
register_of kilo_5 at m old_dib = register_loose at m old_dib
register_of _ at m old_dib = register_nand_device at m old_dib

abbrev pub get_driver_of : KiloBug → Placed → Memory → Outcome NandDriver
get_driver_of kilo_2 at m = ok (get_driver_of_chip at m)
get_driver_of kilo_3 at m = ok (get_driver_of_chip at m)
get_driver_of _ at m = get_driver at m
