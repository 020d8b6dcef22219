-- ===== src/Tester/Deterministic/Passes.antt =====
-- The deterministic test (tester/st_deterministic.c) passes with a correct driver and the emulator.
use v_spells_nand_use_case.Prelude.{ℕ, ◌*◌, ◌≤◌, ◌<◌, ◌≡◌, ◌∙◌, sym, refl, arith, Bytes}
use v_spells_nand_use_case.Host.{Host}
use v_spells_nand_use_case.Clock.Laws.{IsHost, Returns, returns, bind}
use v_spells_nand_use_case.Device.Rig.{Rig}
use v_spells_nand_use_case.Device.Store.Laws.{storage_size}
use v_spells_nand_use_case.Driver.Interface.{success, NandDriver}
use v_spells_nand_use_case.Tester.Data.{data_init, data_compare, data_confirm_zeroes}
use v_spells_nand_use_case.Tester.Data.Laws.{
  equal-compare, data_confirm_zeroes-data_compare, data_init-bytes,
}
use v_spells_nand_use_case.Tester.Deterministic.{
  storage_addr, data_size, erase_test, st_deterministic,
}
use v_spells_nand_use_case.Tester.Mirror.{write_mirror, erase_mirror}
use v_spells_nand_use_case.Tester.Mirror.Reads.{
  write_mirror-bytes, erase_mirror-bytes, read_mirror-write_mirror, read_mirror-erase_mirror,
}
use v_spells_nand_use_case.Transfer.Correct.{IsCorrect}
use v_spells_nand_use_case.Transfer.Phase.{IsIdle}
use v_spells_nand_use_case.Transfer.Written.{pages_size}
use v_spells_nand_use_case.Framework.JumpTable.{block_count}

-- the storage after the write and after the erase
abbrev pub stored : Bytes → Bytes → Bytes
stored buffer d = write_mirror buffer storage_addr data_size d

abbrev pub cleared : Bytes → Bytes
cleared d = erase_mirror storage_addr data_size d

zero-confirm :
    (b : Bytes) (length : ℕ)
    → ((j : ℕ) → j < length → b j ≡ 0)
    → data_confirm_zeroes b length ≡ length
zero-confirm b length same =
    data_confirm_zeroes-data_compare b length ∙ equal-compare b (λ _. 0) length same

module _ {h : Host} {host : IsHost h} {driver : NandDriver} (correct : IsCorrect host driver) where
  erase_test-passes :
      (dest d : Bytes) (r : Rig)
      → ((i : ℕ) → d i < 256)
      → IsIdle host d r
      → Returns h
          (λ (code, t). (code ≡ success) × IsIdle host (cleared d) t)
          (erase_test driver dest r)
  unfolding erase_test
  erase_test-passes dest d r bytes idle =
      let blocks : block_count storage_addr data_size * 65536 ≤ storage_size = omega arith in
      bind (correct.erases storage_addr data_size d r (omega arith) blocks (omega arith) idle)
        λ (code, t) (done, after). rw done (
          bind
            (correct.reads dest storage_addr data_size (cleared d) t
              (erase_mirror-bytes storage_addr data_size d (omega arith) blocks (omega arith) bytes)
              (omega arith) (omega arith) (omega arith) after)
            λ (code', b, u) (done', got, after').
              let all_zero : data_confirm_zeroes b data_size ≡ data_size =
                zero-confirm b data_size λ j inside.
                  got j
                  ∙ read_mirror-erase_mirror storage_addr data_size d (omega arith) blocks
                      (omega arith) dest j inside in
              rw (done', all_zero) (returns (refl, after')))

  -- The deterministic test passes with a correct driver on an idle device that holds bytes, if the clock
  -- can be read. The device is then idle, and the blocks of the test's range are erased.
  pub st_deterministic-passes :
      (data_array dest d : Bytes) (r : Rig)
      → ((i : ℕ) → data_array i < 256)
      → ((i : ℕ) → d i < 256)
      → IsIdle host d r
      → Returns h
          (λ (code, t).
            (code ≡ success) × IsIdle host (cleared (stored (data_init data_array data_size) d)) t)
          (st_deterministic driver data_array dest r)
  unfolding st_deterministic
  st_deterministic-passes data_array dest d r small bytes idle =
      let buffer = data_init data_array data_size in
      let small' = data_init-bytes data_array data_size small in
      let pages : pages_size storage_addr data_size ≤ storage_size = omega arith in
      let bytes' =
        write_mirror-bytes storage_addr data_size d (omega arith) buffer pages (omega arith) small'
          bytes in
      bind
        (correct.writes buffer storage_addr data_size d r small' (omega arith) pages (omega arith)
          idle)
        λ (code, t) (done, after). rw done (
          bind
            (correct.reads dest storage_addr data_size (stored buffer d) t bytes' (omega arith)
              (omega arith) (omega arith) after)
            λ (code', b, u) (done', got, after').
              let all_equal : data_compare buffer b data_size ≡ data_size =
                equal-compare buffer b data_size λ j inside. sym (
                  got j
                  ∙ read_mirror-write_mirror storage_addr data_size d (omega arith) buffer pages
                      (omega arith) dest j inside) in
              rw (done', all_equal) (erase_test-passes b (stored buffer d) u bytes' after'))
