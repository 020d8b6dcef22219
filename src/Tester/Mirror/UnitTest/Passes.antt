-- ===== src/Tester/Mirror/UnitTest/Passes.antt =====
-- The mirror's unit test passes (tester/st_mirror.c).
use v_spells_nand_use_case.Prelude.{
  ℕ, zero, suc, ◌+◌, ◌-◌, ◌*◌, ◌%◌, ◌^◌, ◌≤◌, ◌<◌, ◌≡◌, ◌∙◌, refl, sym, arith, Bytes, true, ◌==◌,
  ◌⊎◌, inl, inr,
}
use v_spells_nand_use_case.Device.Store.Laws.{storage_size}
use v_spells_nand_use_case.Driver.Interface.{success}
use v_spells_nand_use_case.Framework.JumpTable.{block_count}
use v_spells_nand_use_case.Tester.Data.{data_init, data_compare}
use v_spells_nand_use_case.Tester.Data.Laws.{equal-compare}
use v_spells_nand_use_case.Tester.Mirror.{
  page_start, page_end, block_start, block_end, wrap, last, read_mirror, write_mirror, erase_mirror,
}
use v_spells_nand_use_case.Tester.Mirror.Reads.{read_mirror-write_mirror}
use v_spells_nand_use_case.Tester.Mirror.Refines.{write_mirror-written, erase_mirror-erased}
use v_spells_nand_use_case.Tester.Mirror.UnitTest.{fill, confirm_loop, test}
use v_spells_nand_use_case.Transfer.Written.{pages_size, behind, written}

confirm_loop-success :
    (m : Bytes) (left i : ℕ)
    → ((j : ℕ) → i ≤ j → j < i + left → m (wrap j) ≡ 0)
    → confirm_loop m left i ≡ success
unfolding confirm_loop
confirm_loop-success m zero i all_zero = refl
confirm_loop-success m (suc left) i all_zero =
    let here : m (wrap i) ≡ 0 = all_zero i (omega arith) (omega arith) in
    let rest : confirm_loop m left (i + 1) ≡ success =
      confirm_loop-success m left (i + 1) (λ j low high. all_zero j (omega arith) (omega arith)) in
    ground arith

behind-wrap :
    (offset j : ℕ)
    → page_start offset ≤ j
    → j < page_start offset + storage_size
    → behind (offset % storage_size) (wrap j) ≡ j - page_start offset
behind-wrap offset j low high = omega arith

-- the closed form of a write at a place `x` behind the start of the first page, outside the range
written_outside :
    (buffer : Bytes) (offset size : ℕ) (m : Bytes) (j : ℕ)
    → page_start offset ≤ j
    → j < page_start offset + pages_size offset size
    → pages_size offset size ≤ storage_size
    → (j < offset) ⊎ (offset + size ≤ j)
    → written buffer 0 (offset % storage_size) size m (wrap j) ≡ 0
unfolding written
written_outside buffer offset size m j low high fits outside =
    let e : offset % storage_size % 256 ≡ offset % 256 = omega arith in
    rw (behind-wrap offset j low (omega arith), e) (ground arith)

module _ (offset size : ℕ) (m : Bytes) (some_bytes : 0 < size) where
  module _ (buffer : Bytes) (fits : pages_size offset size ≤ storage_size)
      (no_wrap : offset + size + 255 < 2 ^ 32) where
    -- the bytes in front of the range, and behind it
    zero_before :
        (j : ℕ)
        → page_start offset ≤ j
        → j < offset
        → write_mirror buffer offset size m (wrap j) ≡ 0
    zero_before j low high =
        write_mirror-written buffer offset size m some_bytes fits no_wrap (wrap j)
        ∙ written_outside buffer offset size m j low (omega arith) fits (inl high)

    zero_behind :
        (j : ℕ)
        → offset + size ≤ j
        → j < page_end (last offset size) + 1
        → write_mirror buffer offset size m (wrap j) ≡ 0
    zero_behind j low high =
        write_mirror-written buffer offset size m some_bytes fits no_wrap (wrap j)
        ∙ written_outside buffer offset size m j (omega arith) (omega arith) fits (inr low)

  module _ (fits : block_count offset size * 65536 ≤ storage_size)
      (no_wrap : offset + size + 65535 < 2 ^ 32) where
    zero_blocks :
        (j : ℕ)
        → block_start offset ≤ j
        → j < block_end (last offset size) + 1
        → erase_mirror offset size m (wrap j) ≡ 0
    zero_blocks j low high =
        erase_mirror-erased offset size m (wrap j) some_bytes fits no_wrap ∙ ground arith

-- The unit test passes for every range of at least one byte whose pages and blocks fit the storage and end
-- below 2 ^ 32, whatever the arrays hold.
pub test-success :
    (offset size : ℕ) (mirror data_written data_read : Bytes)
    → 0 < size
    → pages_size offset size ≤ storage_size
    → block_count offset size * 65536 ≤ storage_size
    → offset + size + 65535 < 2 ^ 32
    → test offset size mirror data_written data_read ≡ success
unfolding test
test-success offset size mirror data_written data_read some_bytes pages blocks no_wrap =
    let buffer = data_init data_written size in
    let m = write_mirror buffer offset size (fill mirror) in
    let same : data_compare buffer (read_mirror m data_read offset size) size ≡ size =
      equal-compare buffer (read_mirror m data_read offset size) size λ j inside. sym (
        read_mirror-write_mirror offset size (fill mirror) some_bytes buffer pages (omega arith)
          data_read j inside) in
    let itself : (size == size) ≡ true = ground arith in
    let after : (offset + size) % 2 ^ 32 ≡ offset + size = omega arith in
    rw
      (
        same,
        itself,
        confirm_loop-success m (offset - page_start offset) (page_start offset) (λ j low high.
            zero_before offset size (fill mirror) some_bytes buffer pages (omega arith) j low
              (omega arith)),
        after,
        confirm_loop-success m (page_end (last offset size) + 1 - (offset + size)) (offset + size)
            (λ j low high.
              zero_behind offset size (fill mirror) some_bytes buffer pages (omega arith) j low
                (omega arith)),
      )
      (confirm_loop-success (erase_mirror offset size m)
        (block_end (last offset size) + 1 - block_start offset) (block_start offset)
        λ j low high. zero_blocks offset size m some_bytes blocks no_wrap j low (omega arith))
