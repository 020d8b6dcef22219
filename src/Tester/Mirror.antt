-- ===== src/Tester/Mirror.antt =====
-- The mirror of the device's storage (tester/st_mirror.c). Its indices are `unsigned int` and are
-- wrapped to the storage's size at each access.
pub mod Ring
pub mod Refines
pub mod Reads
pub mod UnitTest
use v_spells_nand_use_case.Prelude.{ℕ, ◌+◌, ◌-◌, ◌*◌, ◌/◌, ◌%◌, ◌^◌, Bytes, update, for_range}
use v_spells_nand_use_case.Device.Constants.{num_blocks, num_pages, num_bytes}

abbrev pub page_size : ℕ
page_size = num_bytes

abbrev pub block_size : ℕ
block_size = num_pages * num_bytes

abbrev pub mirror_size : ℕ
mirror_size = num_blocks * num_pages * num_bytes

abbrev pub page_start : ℕ → ℕ
page_start o = o / page_size * page_size

-- the sum and the difference are `unsigned int`
abbrev pub page_end : ℕ → ℕ
page_end o = (page_start o + page_size - 1) % 2 ^ 32

abbrev pub block_start : ℕ → ℕ
block_start o = o / block_size * block_size

abbrev pub block_end : ℕ → ℕ
block_end o = (block_start o + block_size - 1) % 2 ^ 32

abbrev pub wrap : ℕ → ℕ
wrap o = o % mirror_size

-- `offset + size - 1` on `unsigned int`
abbrev pub last : ℕ → ℕ → ℕ
last offset size = (offset + size + 2 ^ 32 - 1) % 2 ^ 32

-- `for (i = 0; i < size; i++)`
unfoldable pub read_mirror : Bytes → Bytes → ℕ → ℕ → Bytes
unfolding update
read_mirror mirror buffer offset size =
    for_range size 0 (λ i b. update b i (mirror (wrap ((offset + i) % 2 ^ 32)))) buffer

-- `for (i = first; i < past; i++) mirror[WRAP(i)] = 0`
unfoldable pub zero_range : ℕ → ℕ → Bytes → Bytes
unfolding update
zero_range first past mirror = for_range (past - first) first (λ i m. update m (wrap i) 0) mirror

-- The loop over `i <= PAGE_END(...)` runs to one past it; it would not end at the largest `unsigned int`.
unfoldable pub write_mirror : Bytes → ℕ → ℕ → Bytes → Bytes
unfolding zero_range update
write_mirror buffer offset size mirror =
    let m = zero_range (page_start offset) offset mirror in
    let m = for_range size 0 (λ i m. update m (wrap ((offset + i) % 2 ^ 32)) (buffer i)) m in
    zero_range ((offset + size) % 2 ^ 32) (page_end (last offset size) + 1) m

unfoldable pub erase_mirror : ℕ → ℕ → Bytes → Bytes
unfolding zero_range
erase_mirror offset size mirror =
    zero_range (block_start offset) (block_end (last offset size) + 1) mirror
