-- ===== src/Scenarios/Units.antt =====
-- The unit tests of the emulator on concrete inputs.
use v_spells_nand_use_case.Prelude.{ℕ, ◌<◌, ◌≡◌, refl, arith, Bytes, false, [], ◌∷◌, true}
use v_spells_nand_use_case.Outcome.{ok}
use v_spells_nand_use_case.Clock.Laws.{Returns}
use v_spells_nand_use_case.Device.Store.Laws.{storage_size}
use v_spells_nand_use_case.Transfer.Phase.{IsIdle}
use v_spells_nand_use_case.UnitTests.Emulator.{tester_main, write_and_read_all_pages_test}
use v_spells_nand_use_case.UnitTests.Emulator.Ranges.{Rests}
use v_spells_nand_use_case.UnitTests.Emulator.Passes.{tester_main-passes}
use v_spells_nand_use_case.UnitTests.Emulator.AllPages.{
  Asserts, write_and_read_all_pages_test-Asserts,
}
use v_spells_nand_use_case.UnitTests.IoRegs.{Trial, tracee}
use v_spells_nand_use_case.UnitTests.IoRegs.Passes.{ended, tracee-passes}
use v_spells_nand_use_case.Scenarios.{
  test_host, test_host-IsHost, test_rig, test_rig-IsIdle, zeroes, zero_bytes,
}

test_rig-Rests : Rests test_host-IsHost zeroes test_rig
test_rig-Rests = record { idle = test_rig-IsIdle; bytes = zero_bytes }

tester_main-passes_example :
    Returns test_host
      (λ t. (d : Bytes) × IsIdle test_host-IsHost d t × ((j : ℕ) → j < storage_size → d j ≡ 0))
      (tester_main test_host test_rig)
tester_main-passes_example = tester_main-passes test_host-IsHost refl zeroes test_rig test_rig-Rests

write_and_read_all_pages_test-Asserts_example :
    Asserts test_host (write_and_read_all_pages_test test_host test_rig)
write_and_read_all_pages_test-Asserts_example =
    write_and_read_all_pages_test-Asserts test_host-IsHost refl zeroes test_rig test_rig-Rests

abbrev writing : Trial
writing = record { is_read = false; ioregisters = 0; regs = test_rig.regs }

tracee-passes_example :
    tracee 0 (0x2e10 ∷ 0x2dfe ∷ []) writing
    ≡ ok (true ∷ true ∷ [], ended (0x2e10 ∷ 0x2dfe ∷ []) writing)
tracee-passes_example =
    tracee-passes 0 (0x2e10 ∷ 0x2dfe ∷ []) writing (omega arith, (omega arith, tt)) refl
