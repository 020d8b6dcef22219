-- ===== src/Tester/Dib.antt =====
-- The tester's device information block, and its check of the block that a driver returns
-- (tester/st_dib.c).
use v_spells_nand_use_case.Prelude.{none, some, ◌||◌, not, if◌then◌else◌}
use v_spells_nand_use_case.Outcome.{Outcome, ok, stop, invalid_access, ◌>>=◌}
use v_spells_nand_use_case.Device.Constants.{num_blocks, num_pages, num_bytes}
use v_spells_nand_use_case.Driver.Interface.{Code, success, failure}
use v_spells_nand_use_case.Framework.Dib.{
  Pointer, StorageChip, ControllerChip, NandDevice, Memory, Placed, put_storage, put_controller,
  put_device, same_pointer, verify_dib,
}

abbrev pub init_storage : StorageChip
init_storage = record {
  nblocks = num_blocks;
  npages_per_block = num_pages;
  nbytes_per_page = num_bytes;
  next_storage = none;
  controller = none;
  ref_count = 1;
}

abbrev pub init_controller : Placed → ControllerChip
init_controller at = record {
  nstorage = 1;
  first_storage = some at.storage;
  last_storage = some at.storage;
  exec_op = none;
  ref_count = 1;
}

abbrev pub init_device : Placed → NandDevice
init_device at = record { controller = some at.controller; next_device = none; ref_count = 2 }

-- the three nodes as the program is loaded
abbrev pub load_tester : Placed → Memory → Memory
load_tester at m =
    put_device at.device (init_device at)
      (put_controller at.controller (init_controller at) (put_storage at.storage init_storage m))

unfoldable pub st_dib_init : Placed → Memory → Pointer × Memory
st_dib_init at m = (
  some at.device,
  put_storage at.storage (record (m.storages at.storage) { controller = some at.controller }) m,
)

unfoldable pub st_dib_test : Memory → (dib_old dib_new : Pointer) → Outcome Code
st_dib_test m dib_old dib_new = verify_dib m dib_new >>= λ code. elim code [
  | failure ↦ ok failure
  | success ↦ elim dib_new [
    | none ↦ stop invalid_access
    | some d ↦ ok (
        if same_pointer (m.devices d).next_device none
          || not (same_pointer (m.devices d).next_device dib_old)
        then failure
        else success)
  ]
]
