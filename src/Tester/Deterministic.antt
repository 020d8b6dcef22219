-- ===== src/Tester/Deterministic.antt =====
-- The deterministic system test (tester/st_deterministic.c), without its output.
pub mod Passes
use v_spells_nand_use_case.Prelude.{ℕ, Bytes, ◌==◌, if◌then◌else◌}
use v_spells_nand_use_case.Outcome.{Outcome, ok, ◌>>=◌}
use v_spells_nand_use_case.Device.Rig.{Rig}
use v_spells_nand_use_case.Driver.Interface.{Code, success, failure, NandDriver}
use v_spells_nand_use_case.Framework.{write_nand, read_nand, erase_nand}
use v_spells_nand_use_case.Tester.Data.{data_init, data_compare, data_confirm_zeroes}

abbrev pub storage_addr : ℕ
storage_addr = 0

abbrev pub data_size : ℕ
data_size = 300

-- the second half: the erased blocks read as zeroes
unfoldable pub erase_test : NandDriver → Bytes → Rig → Outcome (Code × Rig)
erase_test driver dest r = erase_nand driver storage_addr data_size r >>= λ (code, r). elim code [
  | failure ↦ ok (failure, r)
  | success ↦ read_nand driver dest storage_addr data_size r >>= λ (code, dest, r). elim code [
    | failure ↦ ok (failure, r)
    | success ↦ ok (if data_confirm_zeroes dest data_size == data_size then success else failure, r)
  ]
]

-- `data` and `dest` are the two static arrays as they are before the test
unfoldable pub st_deterministic : NandDriver → Bytes → Bytes → Rig → Outcome (Code × Rig)
unfolding erase_test
st_deterministic driver data_array dest r =
    let data_array = data_init data_array data_size in
    write_nand driver data_array storage_addr data_size r >>= λ (code, r). elim code [
      | failure ↦ ok (failure, r)
      | success ↦ read_nand driver dest storage_addr data_size r >>= λ (code, dest, r). elim code [
        | failure ↦ ok (failure, r)
        | success ↦
            if data_compare data_array dest data_size == data_size
            then erase_test driver dest r
            else ok (failure, r)
      ]
    ]
