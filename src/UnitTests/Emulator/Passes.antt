-- ===== src/UnitTests/Emulator/Passes.antt =====
-- The emulator passes its unit test.
use v_spells_nand_use_case.Prelude.{ℕ, ◌<◌, ◌≡◌, arith, Bytes}
use v_spells_nand_use_case.Outcome.{Outcome}
use v_spells_nand_use_case.Host.{Host}
use v_spells_nand_use_case.Clock.Laws.{IsHost, Returns, bind, mono}
use v_spells_nand_use_case.Device.IoRegs.Laws.{IsDecodable}
use v_spells_nand_use_case.Device.Rig.{Rig}
use v_spells_nand_use_case.Device.Store.Laws.{storage_size}
use v_spells_nand_use_case.Transfer.Erase.{erased}
use v_spells_nand_use_case.Transfer.Phase.{IsIdle}
use v_spells_nand_use_case.UnitTests.Emulator.{tester_main}
use v_spells_nand_use_case.UnitTests.Emulator.Ranges.{Rests}
use v_spells_nand_use_case.UnitTests.Emulator.Pages.{
  wr_page_test-Rests, erase_block_test-Rests, wr_less_than_page_test-Rests,
  write_two_pages_test-Rests, write_last_two_pages_test-Rests,
}
use v_spells_nand_use_case.UnitTests.Emulator.Blocks.{
  two_blocks, erase_two_blocks_test-Rests, erase_last_two_blocks_test-Rests,
  erase_all_blocks_test-Rests, overwrite_page_test-Rests, write_and_read_two_pages_test-Rests,
  reset_test-Rests, set_status_pin_test-Rests, get_reset_pin_test-Rests,
}

module _ {h : Host} (host : IsHost h) (decodable : IsDecodable h) where
  -- The device is idle, and its storage holds some bytes.
  AtRest : Rig → Type 0
  AtRest r = (d : Bytes) × Rests host d r

  keeps : {d : Bytes} {o : Outcome Rig} → Returns h (Rests host d) o → Returns h AtRest o
  unfolding AtRest
  keeps {d} passed = mono passed (λ t s. (d, s))

  -- The unit test of the emulator runs to its end with no assertion failed, if the clock can be read and the
  -- emulator can decode the test's reads, on an idle device whose storage holds bytes. The device is then
  -- idle, and its storage is zeroed.
  pub tester_main-passes :
      (d : Bytes) (r : Rig)
      → Rests host d r
      → Returns h
          (λ t. (d' : Bytes) × IsIdle host d' t × ((j : ℕ) → j < storage_size → d' j ≡ 0))
          (tester_main h r)
  unfolding tester_main AtRest
  tester_main-passes d0 r0 s0 =
      bind (keeps (wr_page_test-Rests host decodable d0 r0 s0)) λ r1 (d1, s1).
        bind (keeps (erase_block_test-Rests host decodable d1 r1 s1)) λ r2 (d2, s2).
          bind (keeps (wr_less_than_page_test-Rests host decodable d2 r2 s2)) λ r3 (d3, s3).
            bind (keeps (write_two_pages_test-Rests host decodable d3 r3 s3)) λ r4 (d4, s4).
              bind (keeps (write_last_two_pages_test-Rests host decodable d4 r4 s4)) λ r5 (d5, s5).
                bind (keeps (erase_two_blocks_test-Rests host decodable d5 r5 s5)) λ r6 (d6, s6).
                  bind (keeps (erase_last_two_blocks_test-Rests host decodable d6 r6 s6))
                    λ r7 (d7, s7).
                      bind (keeps (overwrite_page_test-Rests host decodable d7 r7 s7))
                        λ r8 (d8, s8).
                          bind (keeps (write_and_read_two_pages_test-Rests host decodable d8 r8 s8))
                            λ r9 (d9, s9).
                              bind (keeps (reset_test-Rests host decodable d9 r9 s9))
                                λ r10 (d10, s10).
                                  bind
                                    (keeps (set_status_pin_test-Rests host decodable d10 r10 s10))
                                    λ r11 (d11, s11).
                                      bind
                                        (keeps
                                          (get_reset_pin_test-Rests host decodable d11 r11 s11))
                                        λ r12 (d12, s12).
                                          mono
                                            (erase_all_blocks_test-Rests host decodable d12 r12 s12)
                                            λ t s. (
                                              erased 0 256 (two_blocks d12 255 0),
                                              s.idle,
                                              λ j hj. ground arith,
                                            )
