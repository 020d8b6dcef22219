-- ===== src/Device/Store.antt =====
-- Cursor, page cache and data store (device/de_store.c, device/de_store.h). `unsigned int` wraps at
-- 2 ^ 32. The arrays are functions of the index: Device/Store/Bounds.antt has their bounds.
pub mod Laws
pub mod Bounds
use v_spells_nand_use_case.Prelude.{
  ℕ, ◌+◌, ◌-◌, ◌*◌, ◌/◌, ◌%◌, ◌^◌, bit_and, bit_or, Bool, true, false, Bytes, update, memset,
  memcpy, for_range, ltb, leb, if◌then◌else◌,
}
use v_spells_nand_use_case.Device.Constants.{num_blocks, num_pages, num_bytes}

abbrev pub cursor_block_mask : ℕ
cursor_block_mask = 0x00ff0000

abbrev pub cursor_page_mask : ℕ
cursor_page_mask = 0x0000ff00

abbrev pub cursor_byte_mask : ℕ
cursor_byte_mask = 0x000000ff

abbrev pub cursor_block_shift : ℕ
cursor_block_shift = 16

abbrev pub cursor_page_shift : ℕ
cursor_page_shift = 8

abbrev pub cursor_byte_shift : ℕ
cursor_byte_shift = 0

-- `~m`, `v << k` and `v >> k` on 32 bits
abbrev pub complement : ℕ → ℕ
complement m = 2 ^ 32 - 1 - m

abbrev pub shift_left : ℕ → ℕ → ℕ
shift_left v k = v * 2 ^ k % 2 ^ 32

abbrev pub shift_right : ℕ → ℕ → ℕ
shift_right v k = v / 2 ^ k

-- the three static variables
pub record Store : Type 0 where
  pub cursor : ℕ
  pub data_store : Bytes
  pub cache : Bytes

unfoldable pub store_clear_cache : Store → Store
unfolding memset
store_clear_cache s = record s { cache = memset s.cache 0 0 num_bytes }

unfoldable pub store_clear_cursor : Store → Store
store_clear_cursor s = record s { cursor = 0 }

unfoldable pub store_init : Store → Store
unfolding store_clear_cache store_clear_cursor memset
store_init s =
    let t = store_clear_cursor (store_clear_cache s) in
    record t { data_store = memset t.data_store 0 0 (num_blocks * num_pages * num_bytes) }

unfoldable pub increment_cursor : Bool → Store → Store
increment_cursor true s =
    let bytes = bit_and s.cursor cursor_byte_mask in
    if ltb (bytes + 1) num_bytes
    then record s { cursor = (s.cursor + 1) % 2 ^ 32 }
    else record s { cursor = bit_and s.cursor (complement cursor_byte_mask) }
increment_cursor false s =
    let next = (s.cursor + 1) % 2 ^ 32 in
    if leb (num_blocks * num_pages * num_bytes) next
    then record s { cursor = 0 }
    else record s { cursor = next }

unfoldable pub increment_page : Store → Store
increment_page s =
    let page = shift_right (bit_and s.cursor cursor_page_mask) cursor_page_shift + 1 in
    let block = shift_right (bit_and s.cursor cursor_block_mask) cursor_block_shift in
    let turned = leb num_pages page in
    let page' = if turned then 0 else page in
    let block' = if turned then (if leb num_blocks (block + 1) then 0 else block + 1) else block in
    let cursor = bit_or 0 (shift_left block' cursor_block_shift) in
    record s { cursor = bit_or cursor (shift_left page' cursor_page_shift) }

unfoldable pub increment_block : Store → Store
increment_block s =
    let block = shift_right (bit_and s.cursor cursor_block_mask) cursor_block_shift + 1 in
    let block' = if leb num_blocks block then 0 else block in
    record s { cursor = bit_or 0 (shift_left block' cursor_block_shift) }

unfoldable pub set_cursor_byte : ℕ → ℕ → Store → Store
set_cursor_byte value shift s =
    let cleared = bit_and s.cursor (complement (shift_left 0xff shift)) in
    record s { cursor = bit_or cleared (shift_left value shift) }

unfoldable pub store_copy_page_to_cache : Store → Store
unfolding memcpy
store_copy_page_to_cache s =
    let page = bit_and s.cursor (complement cursor_byte_mask) in
    record s { cache = memcpy s.cache 0 s.data_store page num_bytes }

-- the loop's body at `i`
unfoldable pub copy_byte : ℕ → Store → Store
unfolding update
copy_byte i s =
    let idx = bit_and s.cursor (complement cursor_byte_mask) + i in
    record s { data_store = update s.data_store idx (s.cache i) }

unfoldable pub store_copy_page_from_cache : Store → Store
unfolding copy_byte
store_copy_page_from_cache s = for_range num_bytes 0 copy_byte s

unfoldable pub store_get_cache_byte : Store → ℕ
store_get_cache_byte s = s.cache (bit_and s.cursor cursor_byte_mask)

-- `byte` is an `unsigned char`
unfoldable pub store_set_cache_byte : ℕ → Store → Store
unfolding update
store_set_cache_byte byte s = record s {
  cache = update s.cache (bit_and s.cursor cursor_byte_mask) (byte % 256);
}

unfoldable pub store_erase_block : Store → Store
unfolding memset
store_erase_block s =
    let block = bit_and s.cursor cursor_block_mask in
    record s { data_store = memset s.data_store block 0 (num_pages * num_bytes) }
