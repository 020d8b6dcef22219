-- ===== src/Driver/Kilo.antt =====
-- The drivers that add their device to the device information block (driver/kilo/). kilo_0 is the correct
-- one. Their functions for the device do what those of foxtrot_0 do.
pub mod Registered
pub mod Bugs
use v_spells_nand_use_case.Prelude.{ℕ, ◌+◌, none, some}
use v_spells_nand_use_case.Outcome.{Outcome, ok, stop, invalid_access, ◌>>=◌}
use v_spells_nand_use_case.Host.{Host}
use v_spells_nand_use_case.Device.Constants.{num_blocks, num_pages, num_bytes}
use v_spells_nand_use_case.Driver.Foxtrot
use v_spells_nand_use_case.Driver.Interface.{Code, success, failure, NandDriver, nand_exec_op}
use v_spells_nand_use_case.Framework.Dib.{
  Pointer, StorageChip, ControllerChip, NandDevice, Memory, Placed, put_storage, put_controller,
  put_device, verify_dib,
}
use v_spells_nand_use_case.Framework.ExecOp.{Interpreter}

abbrev pub nand_controller_chip_count : ℕ
nand_controller_chip_count = 1

abbrev pub nand_storage_chips_per_controller : ℕ
nand_storage_chips_per_controller = 1

-- what `exec_op` of foxtrot_0 does
abbrev pub exec_op : Host → Interpreter
exec_op h = Foxtrot.exec_op h

abbrev pub kilo_storage_chip : StorageChip
kilo_storage_chip = record {
  nblocks = num_blocks;
  npages_per_block = num_pages;
  nbytes_per_page = num_bytes;
  next_storage = none;
  controller = none;
  ref_count = 1;
}

abbrev pub kilo_controller_chip : Host → Placed → ControllerChip
kilo_controller_chip h at = record {
  nstorage = nand_storage_chips_per_controller;
  first_storage = some at.storage;
  last_storage = some at.storage;
  exec_op = some (exec_op h);
  ref_count = nand_storage_chips_per_controller;
}

abbrev pub kilo_device : Placed → NandDevice
kilo_device at = record {
  controller = some at.controller;
  next_device = none;
  ref_count = nand_controller_chip_count + 1;
}

-- the two assignments that link the device into the block
abbrev pub link_storage : Placed → Memory → Memory
link_storage at m =
    put_storage at.storage (record (m.storages at.storage) { controller = some at.controller }) m

abbrev pub link_device : Placed → Pointer → Memory → Memory
link_device at next m = put_device at.device (record (m.devices at.device) { next_device = next }) m

-- what follows the check of the old block
abbrev pub register_if_formed :
    Placed → Memory → Pointer → (Memory → Memory) → Outcome (Pointer × Memory)
register_if_formed at m old_dib links = verify_dib m old_dib >>= λ code. elim code [
  | failure ↦ ok (none, m)
  | success ↦ ok (some at.device, links m)
]

unfoldable pub register_nand_device : Placed → Memory → Pointer → Outcome (Pointer × Memory)
register_nand_device at m old_dib =
    register_if_formed at m old_dib λ m. link_device at old_dib (link_storage at m)

-- A null function pointer stops the program when it is called.
unfoldable pub get_driver : Placed → Memory → Outcome NandDriver
get_driver at m = elim (m.devices at.device).controller [
  | none ↦ stop invalid_access
  | some c ↦ elim (m.controllers c).exec_op [
    | none ↦ ok (nand_exec_op (λ _ _ _. stop invalid_access))
    | some run ↦ ok (nand_exec_op run)
  ]
]
