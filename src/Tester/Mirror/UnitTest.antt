-- ===== src/Tester/Mirror/UnitTest.antt =====
-- The mirror's own unit test (tester/st_mirror.c, under UNIT_TEST), without its output.
pub mod Passes
use v_spells_nand_use_case.Prelude.{
  ℕ, zero, suc, ◌+◌, ◌-◌, ◌*◌, ◌%◌, ◌^◌, Bytes, update, for_range, ◌==◌, if◌then◌else◌,
}
use v_spells_nand_use_case.Driver.Interface.{Code, success, failure}
use v_spells_nand_use_case.Tester.Data.{data_init, data_compare}
use v_spells_nand_use_case.Tester.Mirror.{
  page_size, block_size, mirror_size, page_start, page_end, block_start, block_end, wrap, last,
  read_mirror, write_mirror, erase_mirror,
}

abbrev pub test_size : ℕ
test_size = block_size

abbrev pub test_offset : ℕ
test_offset = 2 * mirror_size - block_size + page_size + 7

-- the character 'x'
abbrev pub nonzero_char : ℕ
nonzero_char = 120

-- `for (i = 0; i < MIRROR_SIZE; i++)`
unfoldable pub fill : Bytes → Bytes
unfolding update
fill mirror = for_range mirror_size 0 (λ i m. update m i nonzero_char) mirror

-- A loop over `i` that fails where the mirror is not zero, by the rounds that are left. The loops up to
-- `true_end` run to one past it.
unfoldable pub confirm_loop : Bytes → (left i : ℕ) → Code
confirm_loop mirror zero i = success
confirm_loop mirror (suc left) i =
    let rest = confirm_loop mirror left (i + 1) in if mirror (wrap i) == 0 then rest else failure

abbrev pub and_then : Code → Code → Code
and_then failure rest = failure
and_then success rest = rest

-- `test`, with the mirror and the two static arrays as they are before it
unfoldable pub test : (offset size : ℕ) (mirror data_written data_read : Bytes) → Code
unfolding fill confirm_loop
test offset size mirror data_written data_read =
    let data_written = data_init data_written size in
    let written = write_mirror data_written offset size (fill mirror) in
    let data_read = read_mirror written data_read offset size in
    let past_page = page_end (last offset size) + 1 in
    let past_block = block_end (last offset size) + 1 in
    let after = (offset + size) % 2 ^ 32 in
    if size == data_compare data_written data_read size
    then and_then (confirm_loop written (offset - page_start offset) (page_start offset)) (
        and_then (confirm_loop written (past_page - after) after) (
          confirm_loop (erase_mirror offset size written) (past_block - block_start offset)
            (block_start offset)))
    else failure
