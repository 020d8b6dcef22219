-- ===== src/Device/Store/Bounds.antt =====
-- The store's bounds: the cursor lies inside the storage, so that every index that is made from it lies
-- inside its array, and the arrays hold bytes. Every operation keeps them.
use v_spells_nand_use_case.Prelude.{
  ℕ, ◌+◌, ◌%◌, ◌<◌, ◌≡◌, refl, arith, Bool, true, false, memset, memcpy, Bytes, ◌-◌, inl, inr, ◌⊎◌,
}
use v_spells_nand_use_case.Device.Store.{
  Store, store_clear_cache, store_clear_cursor, increment_cursor, increment_page, increment_block,
  set_cursor_byte, store_copy_page_to_cache, store_copy_page_from_cache, store_set_cache_byte,
  store_erase_block,
}
use v_spells_nand_use_case.Device.Store.Laws.{
  storage_size, cursor-increment_stay, cursor-increment_on, cursor-increment_page,
  cursor-increment_block, cursor-set_block, cursor-set_page, cursor-set_byte, data_store-copy_page,
  data_store-erase, cache-set_byte, increment_keeps, copy_page_keeps, page_keeps, block_keeps,
}

pub record IsBounded (s : Store) : Type 0 where
  pub within : s.cursor < storage_size
  pub data_bytes : (j : ℕ) → s.data_store j < 256
  pub cache_bytes : (j : ℕ) → s.cache j < 256

-- an operation that changes the cursor only
moves :
    {s t : Store}
    → t.cursor < storage_size
    → (t.data_store ≡ s.data_store) × (t.cache ≡ s.cache)
    → IsBounded s
    → IsBounded t
moves inside (ed, ec) b = record {
  within = inside;
  data_bytes = λ j. rw ed (b.data_bytes j);
  cache_bytes = λ j. rw ec (b.cache_bytes j);
}

pub clear-IsBounded :
    (s : Store) → IsBounded s → IsBounded (store_clear_cache (store_clear_cursor s))
unfolding store_clear_cache store_clear_cursor memset
clear-IsBounded s b = record {
  within = omega arith;
  data_bytes = b.data_bytes;
  cache_bytes = λ j. ground (arith, b.cache_bytes j);
}

pub clear_cache-IsBounded : (s : Store) → IsBounded s → IsBounded (store_clear_cache s)
unfolding store_clear_cache memset
clear_cache-IsBounded s b = record {
  within = b.within;
  data_bytes = b.data_bytes;
  cache_bytes = λ j. ground (arith, b.cache_bytes j);
}

pub increment_cursor-IsBounded :
    (remain : Bool) (s : Store) → IsBounded s → IsBounded (increment_cursor remain s)
increment_cursor-IsBounded true s b =
    moves (omega (arith, cursor-increment_stay s b.within, b.within)) (increment_keeps true s) b
increment_cursor-IsBounded false s b =
    moves (omega (arith, cursor-increment_on s b.within)) (increment_keeps false s) b

pub increment_page-IsBounded : (s : Store) → IsBounded s → IsBounded (increment_page s)
increment_page-IsBounded s b =
    moves (omega (arith, cursor-increment_page s b.within)) (page_keeps s) b

pub increment_block-IsBounded : (s : Store) → IsBounded s → IsBounded (increment_block s)
increment_block-IsBounded s b =
    moves (omega (arith, cursor-increment_block s b.within)) (block_keeps s) b

-- the shifts that the parser gives
abbrev pub IsField : ℕ → Type 0
IsField shift = (shift ≡ 16) ⊎ (shift ≡ 8) ⊎ (shift ≡ 0)

pub set_cursor_byte-IsBounded :
    (v shift : ℕ) (s : Store)
    → v < 256
    → IsField shift
    → IsBounded s
    → IsBounded (set_cursor_byte v shift s)
unfolding set_cursor_byte
set_cursor_byte-IsBounded v shift s hv (inl e) b =
    rw e (moves (omega (arith, cursor-set_block v s hv b.within)) (refl, refl) b)
set_cursor_byte-IsBounded v shift s hv (inr (inl e)) b =
    rw e (moves (omega (arith, cursor-set_page v s hv b.within, b.within)) (refl, refl) b)
set_cursor_byte-IsBounded v shift s hv (inr (inr e)) b =
    rw e (moves (omega (arith, cursor-set_byte v s hv b.within, b.within)) (refl, refl) b)

memcpy-small :
    (a b : Bytes) (at from n j : ℕ)
    → a j < 256
    → ((i : ℕ) → b i < 256)
    → memcpy a at b from n j < 256
unfolding memcpy
memcpy-small a b at from n j here small = ground (arith, small (from + (j - at)))

pub page_to_cache-IsBounded : (s : Store) → IsBounded s → IsBounded (store_copy_page_to_cache s)
unfolding store_copy_page_to_cache
page_to_cache-IsBounded s b = record {
  within = b.within;
  data_bytes = b.data_bytes;
  cache_bytes = λ j. memcpy-small s.cache s.data_store 0 _ 256 j (b.cache_bytes j) b.data_bytes;
}

pub page_from_cache-IsBounded : (s : Store) → IsBounded s → IsBounded (store_copy_page_from_cache s)
page_from_cache-IsBounded s b =
    let kept = copy_page_keeps s b.within in
    record {
      within = omega (arith, kept.0, b.within);
      data_bytes = λ j.
          rw (data_store-copy_page s j b.within)
            (ground (arith, b.cache_bytes (j % 256), b.data_bytes j));
      cache_bytes = λ j. rw (kept.1) (b.cache_bytes j);
    }

pub set_cache_byte-IsBounded :
    (v : ℕ) (s : Store) → IsBounded s → IsBounded (store_set_cache_byte v s)
unfolding store_set_cache_byte
set_cache_byte-IsBounded v s b = record {
  within = b.within;
  data_bytes = b.data_bytes;
  cache_bytes = λ j. rw (cache-set_byte v s j) (ground (arith, b.cache_bytes j));
}

pub erase-IsBounded : (s : Store) → IsBounded s → IsBounded (store_erase_block s)
unfolding store_erase_block
erase-IsBounded s b = record {
  within = b.within;
  data_bytes = λ j. rw (data_store-erase s j b.within) (ground (arith, b.data_bytes j));
  cache_bytes = b.cache_bytes;
}
