-- ===== src/Device/Store/Laws.antt =====
-- The store's operations in terms of storage addresses: byte `c` lies in page `c / 256` and in block
-- `c / 65536`, and a cursor is an address below 2 ^ 24.
use v_spells_nand_use_case.Prelude.{
  ℕ, ◌+◌, ◌-◌, ◌*◌, ◌/◌, ◌%◌, ◌^◌, ◌<◌, ◌≡◌, refl, ap, Bool, ltb, leb, ◌&&◌, true, false, arith,
  ◌==◌, if◌then◌else◌, mask_byte_0, mask_byte_1, mask_byte_2, clear_byte_0, clear_byte_1,
  clear_byte_2, bit_or-add, bit_or-split, bit_or-zero, zero-bit_or, bit_and, bit_or, for_range_inv,
}
use v_spells_nand_use_case.Device.Store.{
  cursor_page_mask, cursor_block_mask, shift_left, shift_right, Store, increment_cursor,
  increment_page, increment_block, set_cursor_byte, store_copy_page_to_cache, copy_byte,
  store_copy_page_from_cache, store_erase_block, store_clear_cache, store_set_cache_byte,
  store_get_cache_byte,
}

abbrev pub storage_size : ℕ
storage_size = 16777216

-- Staying in the page, the cursor goes round within it.
pub cursor-increment_stay :
    (s : Store)
    → s.cursor < storage_size
    → (increment_cursor true s).cursor ≡ s.cursor / 256 * 256 + (s.cursor + 1) % 256
unfolding increment_cursor
cursor-increment_stay s h = ground (arith, mask_byte_0 s.cursor, clear_byte_0 s.cursor)

-- Otherwise it goes round at the end of storage.
pub cursor-increment_on :
    (s : Store)
    → s.cursor < storage_size
    → (increment_cursor false s).cursor ≡ (s.cursor + 1) % storage_size
unfolding increment_cursor
cursor-increment_on s h = ground arith

-- the cursor that `increment_page` and `increment_block` put together
join_fields :
    (b p : ℕ)
    → b < 256
    → p < 256
    → bit_or (bit_or 0 (shift_left b 16)) (shift_left p 8) ≡ b * 65536 + p * 256
join_fields b p hb hp =
    let eb : shift_left b 16 ≡ b * 2 ^ 16 = omega arith in
    let ep : shift_left p 8 ≡ p * 256 = omega arith in
    rw (eb, ep, zero-bit_or, bit_or-add 16 b (p * 256) (omega arith)) (omega arith)

-- `increment_page`, which takes the cursor's fields apart and joins them again, moves the cursor to the
-- start of the next page, from the last to the first. The cursor is inside the storage.
pub cursor-increment_page :
    (s : Store)
    → s.cursor < storage_size
    → (increment_page s).cursor ≡ (s.cursor / 256 * 256 + 256) % storage_size
unfolding increment_page
cursor-increment_page s h =
    let p = s.cursor / 256 % 256 in
    let b = s.cursor / 65536 % 256 in
    let ep : shift_right (bit_and s.cursor cursor_page_mask) 8 ≡ p =
      omega (arith, mask_byte_1 s.cursor) in
    let eb : shift_right (bit_and s.cursor cursor_block_mask) 16 ≡ b =
      omega (arith, mask_byte_2 s.cursor) in
    rw (ep, eb) (ground (arith, join_fields b (p + 1), join_fields 0 0, join_fields (b + 1) 0))

-- `increment_block` moves the cursor to the start of the next block, from the last to the first. The
-- cursor is inside the storage.
pub cursor-increment_block :
    (s : Store)
    → s.cursor < storage_size
    → (increment_block s).cursor ≡ (s.cursor / 65536 * 65536 + 65536) % storage_size
unfolding increment_block
cursor-increment_block s h =
    let b = s.cursor / 65536 % 256 in
    let eb : shift_right (bit_and s.cursor cursor_block_mask) 16 ≡ b =
      omega (arith, mask_byte_2 s.cursor) in
    rw (eb, zero-bit_or) (ground arith)

-- `set_cursor_byte` replaces one field of the cursor and keeps the other two.
pub cursor-set_block :
    (v : ℕ) (s : Store)
    → v < 256
    → s.cursor < storage_size
    → (set_cursor_byte v 16 s).cursor ≡ v * 65536 + s.cursor % 65536
unfolding set_cursor_byte
cursor-set_block v s hv h =
    let ec : bit_and s.cursor 0xff00ffff ≡ 0 * 2 ^ 16 + s.cursor % 65536 =
      omega (arith, clear_byte_2 s.cursor) in
    let ev : shift_left v 16 ≡ v * 2 ^ 16 + 0 = omega arith in
    rw
      (
        ec,
        ev,
        bit_or-split 16 0 (s.cursor % 65536) v 0 (omega arith) (omega arith),
        zero-bit_or,
        bit_or-zero,
      )
      refl

pub cursor-set_page :
    (v : ℕ) (s : Store)
    → v < 256
    → s.cursor < storage_size
    → (set_cursor_byte v 8 s).cursor ≡ s.cursor / 65536 * 65536 + v * 256 + s.cursor % 256
unfolding set_cursor_byte
cursor-set_page v s hv h =
    let ec : bit_and s.cursor 0xffff00ff ≡ s.cursor / 65536 * 256 * 2 ^ 8 + s.cursor % 256 =
      omega (arith, clear_byte_1 s.cursor) in
    let ev : shift_left v 8 ≡ v * 2 ^ 8 + 0 = omega arith in
    let joined =
      bit_or-split 8 (s.cursor / 65536 * 256) (s.cursor % 256) v 0 (omega arith) (omega arith) in
    let high = bit_or-add 8 (s.cursor / 65536) v hv in
    rw (ec, ev, joined, bit_or-zero) (omega (arith, high))

pub cursor-set_byte :
    (v : ℕ) (s : Store)
    → v < 256
    → s.cursor < storage_size
    → (set_cursor_byte v 0 s).cursor ≡ s.cursor / 256 * 256 + v
unfolding set_cursor_byte
cursor-set_byte v s hv h =
    let ec : bit_and s.cursor 0xffffff00 ≡ s.cursor / 256 * 2 ^ 8 =
      omega (arith, clear_byte_0 s.cursor) in
    let ev : shift_left v 0 ≡ v = omega arith in
    rw (ec, ev, bit_or-add 8 (s.cursor / 256) v (omega arith)) refl

-- a copy of the page goes to the cache
pub cache-copy_page :
    (s : Store) (j : ℕ)
    → s.cursor < storage_size
    → j < 256
    → (store_copy_page_to_cache s).cache j ≡ s.data_store (s.cursor / 256 * 256 + j)
unfolding store_copy_page_to_cache
cache-copy_page s j h hj = rw (clear_byte_0 s.cursor (omega arith)) (ground arith)

-- What the copying loop has done before its round `k`, with `page` the start of the page.
record Copied (s : Store) (page k : ℕ) (t : Store) : Type 0 where
  cursor : t.cursor ≡ s.cursor
  cache : t.cache ≡ s.cache
  bytes :
      (j : ℕ)
      → t.data_store j
        ≡ (if leb page j && ltb j (page + k) then s.cache (j - page) else s.data_store j)

Copied-copy_byte :
    (s : Store) (page : ℕ)
    → s.cursor < storage_size
    → page ≡ s.cursor / 256 * 256
    → (k : ℕ) (t : Store) → Copied s page k t
    → Copied s page (k + 1) (copy_byte k t)
unfolding copy_byte
Copied-copy_byte s page h e k t c = record {
  cursor = c.cursor;
  cache = c.cache;
  bytes =
      λ j. rw (c.cursor, c.cache, clear_byte_0 s.cursor (omega arith)) (ground (arith, c.bytes j));
}

Copied-copy_page :
    (s : Store)
    → s.cursor < storage_size
    → Copied s (s.cursor / 256 * 256) 256 (store_copy_page_from_cache s)
unfolding store_copy_page_from_cache
Copied-copy_page s h =
    for_range_inv (Copied s (s.cursor / 256 * 256)) copy_byte 256 0 256 s refl
      (λ k t _ _ c. Copied-copy_byte s (s.cursor / 256 * 256) h refl k t c)
      (record { cursor = refl; cache = refl; bytes = λ j. ground arith })

-- The copying loop leaves the cache in the cursor's page and the rest of the storage as it was. The
-- cursor is inside the storage.
pub data_store-copy_page :
    (s : Store) (j : ℕ)
    → s.cursor < storage_size
    → (store_copy_page_from_cache s).data_store j
      ≡ (if j / 256 == s.cursor / 256 then s.cache (j % 256) else s.data_store j)
data_store-copy_page s j h = rw ((Copied-copy_page s h).bytes j) (ground (arith, ap s.cache))

-- The erase zeroes the cursor's block and leaves the rest of the storage as it was. The cursor is inside
-- the storage.
pub data_store-erase :
    (s : Store) (j : ℕ)
    → s.cursor < storage_size
    → (store_erase_block s).data_store j
      ≡ (if j / 65536 == s.cursor / 65536 then 0 else s.data_store j)
unfolding store_erase_block
data_store-erase s j h = rw (mask_byte_2 s.cursor) (ground arith)

-- the cache's byte at the cursor
pub cache-set_byte :
    (b : ℕ) (s : Store) (j : ℕ)
    → (store_set_cache_byte b s).cache j ≡ (if j == s.cursor % 256 then b % 256 else s.cache j)
unfolding store_set_cache_byte
cache-set_byte b s j = rw (mask_byte_0 s.cursor) refl

pub get_cache_byte_lem : (s : Store) → store_get_cache_byte s ≡ s.cache (s.cursor % 256)
unfolding store_get_cache_byte
get_cache_byte_lem s = ap s.cache (mask_byte_0 s.cursor)

pub set_cache_byte_keeps :
    (b : ℕ) (s : Store)
    → ((store_set_cache_byte b s).cursor ≡ s.cursor)
      × ((store_set_cache_byte b s).data_store ≡ s.data_store)
unfolding store_set_cache_byte
set_cache_byte_keeps b s = (refl, refl)

-- The cursor's moves change neither array.
pub increment_keeps :
    (remain : Bool) (s : Store)
    → ((increment_cursor remain s).data_store ≡ s.data_store)
      × ((increment_cursor remain s).cache ≡ s.cache)
unfolding increment_cursor
increment_keeps true s = (ground arith, ground arith)
increment_keeps false s = (ground arith, ground arith)

pub copy_page_keeps :
    (s : Store)
    → s.cursor < storage_size
    → ((store_copy_page_from_cache s).cursor ≡ s.cursor)
      × ((store_copy_page_from_cache s).cache ≡ s.cache)
copy_page_keeps s h = ((Copied-copy_page s h).cursor, (Copied-copy_page s h).cache)

pub page_keeps :
    (s : Store)
    → ((increment_page s).data_store ≡ s.data_store) × ((increment_page s).cache ≡ s.cache)
unfolding increment_page
page_keeps s = (refl, refl)

pub block_keeps :
    (s : Store)
    → ((increment_block s).data_store ≡ s.data_store) × ((increment_block s).cache ≡ s.cache)
unfolding increment_block
block_keeps s = (refl, refl)

pub clear_cache_lem :
    (s : Store)
    → ((store_clear_cache s).data_store ≡ s.data_store)
      × ((store_clear_cache s).cursor ≡ s.cursor)
      × ((j : ℕ) → j < 256 → (store_clear_cache s).cache j ≡ 0)
unfolding store_clear_cache
clear_cache_lem s = (refl, refl, λ j hj. ground arith)

pub erase_keeps :
    (s : Store)
    → ((store_erase_block s).cursor ≡ s.cursor) × ((store_erase_block s).cache ≡ s.cache)
unfolding store_erase_block
erase_keeps s = (refl, refl)

pub page_to_cache_keeps :
    (s : Store)
    → ((store_copy_page_to_cache s).cursor ≡ s.cursor)
      × ((store_copy_page_to_cache s).data_store ≡ s.data_store)
unfolding store_copy_page_to_cache
page_to_cache_keeps s = (refl, refl)
