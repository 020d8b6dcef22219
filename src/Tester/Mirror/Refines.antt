-- ===== src/Tester/Mirror/Refines.antt =====
-- The mirror's writes and erases in closed form.
use v_spells_nand_use_case.Prelude.{
  ℕ, ◌+◌, ◌-◌, ◌*◌, ◌/◌, ◌%◌, ◌^◌, ◌≤◌, ◌<◌, ◌≡◌, ◌∙◌, arith, Bool, Bytes, ◌&&◌, ltb, leb,
  if◌then◌else◌, update, for_range, for_range_inv, refl,
}
use v_spells_nand_use_case.Device.Store.Laws.{storage_size}
use v_spells_nand_use_case.Tester.Mirror.{
  page_start, page_end, block_start, block_end, wrap, last, zero_range, write_mirror, erase_mirror,
  read_mirror,
}
use v_spells_nand_use_case.Tester.Mirror.Ring.{ahead, stretch, ring_loop}
use v_spells_nand_use_case.Framework.JumpTable.{block_count}
use v_spells_nand_use_case.Transfer.Erase.{erased}
use v_spells_nand_use_case.Transfer.Read.{taken}
use v_spells_nand_use_case.Transfer.Fetch.{from}
use v_spells_nand_use_case.Transfer.Written.{behind, pages_size, written}

zero_range_lem :
    (first past : ℕ) (m : Bytes) (j : ℕ)
    → past - first ≤ storage_size
    → zero_range first past m j ≡ stretch first (past - first) (λ _. 0) first m j
unfolding zero_range
zero_range_lem first past m j h =
    ring_loop wrap (λ _. 0) 0 first (past - first) m j h (λ i low high. ground arith) ∙ ground arith

-- The three loops one after the other, at a place `x` behind the start of the first page: zeroes up to
-- `b`, then `n` bytes, then zeroes up to the end `p`.
three_loops :
    (buffer : Bytes) (x b n p y z : ℕ) (t : Bool) (v : ℕ)
    → x < storage_size
    → p ≤ storage_size
    → b + n ≤ p
    → (b ≤ x → y ≡ x - b)
    → (x < b → y ≡ x + storage_size - b)
    → (b + n ≤ x → z ≡ x - (b + n))
    → (x < b + n → z ≡ x + storage_size - (b + n))
    → (if t && ltb z (p - (b + n))
        then 0
        else (if t && ltb y n then buffer (0 + y) else (if t && ltb x b then 0 else v)))
      ≡ (if t && ltb x p then (if leb b x && ltb x (b + n) then buffer (0 + (x - b)) else 0) else v)
three_loops buffer x b n p y z t v hx hp hb y1 y2 z1 z2 = ground arith

module _ (buffer : Bytes) (offset size : ℕ) (m : Bytes) (some_bytes : 0 < size)
    (fits : pages_size offset size ≤ storage_size) (no_wrap : offset + size + 255 < 2 ^ 32) where
  start : ℕ
  start = page_start offset

  -- the mirror after each of the loops
  zeroed : Bytes
  zeroed = zero_range (page_start offset) offset m

  filled : Bytes
  filled = for_range size 0 (λ i t. update t (wrap ((offset + i) % 2 ^ 32)) (buffer i)) zeroed

  zeroed_lem : (j : ℕ) → zeroed j ≡ stretch start (offset % 256) (λ _. 0) start m j
  unfolding zeroed start
  zeroed_lem j =
      let e : offset - offset / 256 * 256 ≡ offset % 256 = omega arith in
      rw e at (zero_range_lem (page_start offset) offset m j (omega arith))

  filled_lem : (j : ℕ) → filled j ≡ stretch (offset + 0) size buffer 0 zeroed j
  unfolding filled
  filled_lem j =
      ring_loop (λ i. wrap ((offset + i) % 2 ^ 32)) buffer offset 0 size zeroed j (omega arith)
        λ i low high. omega arith

  last_lem :
      (j : ℕ)
      → write_mirror buffer offset size m j
        ≡ stretch
            (offset + size)
            (pages_size offset size - (offset % 256 + size))
            (λ _. 0)
            (offset + size)
            filled
            j
  unfolding write_mirror filled zeroed
  last_lem j =
      let e1 : (offset + size) % 2 ^ 32 ≡ offset + size = omega arith in
      let e2 : page_end (last offset size) + 1 - (offset + size)
          ≡ pages_size offset size - (offset % 256 + size) =
        omega arith in
      zero_range_lem ((offset + size) % 2 ^ 32) (page_end (last offset size) + 1) filled j
        (omega arith)
      ∙ rw (e1, e2) refl

  -- `write_mirror` leaves exactly the pages of the transfer, going round the end of the storage. The range
  -- has at least one byte, its pages fit the storage, and they end below 2 ^ 32.
  pub write_mirror-written :
      (j : ℕ)
      → write_mirror buffer offset size m j ≡ written buffer 0 (offset % storage_size) size m j
  unfolding written start
  write_mirror-written j =
      let eb : offset % storage_size % 256 ≡ offset % 256 = omega arith in
      let ex : behind (offset % storage_size) j ≡ ahead start j = omega arith in
      last_lem j
      ∙ rw (filled_lem j, zeroed_lem j, ex, eb)
          (three_loops buffer (ahead start j) (offset % 256) size (pages_size offset size)
            (ahead (offset + 0) j) (ahead (offset + size) j) (ltb j storage_size) (m j)
            (omega arith) (omega arith) (omega arith) (λ e. omega arith) (λ e. omega arith)
            (λ e. omega arith) (λ e. omega arith))

-- `erase_mirror` zeroes exactly the blocks that the range touches, going round the end of the storage.
-- The range has at least one byte, and its blocks fit the storage and end below 2 ^ 32.
pub erase_mirror-erased :
    (offset size : ℕ) (m : Bytes) (j : ℕ)
    → 0 < size
    → block_count offset size * 65536 ≤ storage_size
    → offset + size + 65535 < 2 ^ 32
    → erase_mirror offset size m j ≡ erased (offset % storage_size) (block_count offset size) m j
unfolding erase_mirror
erase_mirror-erased offset size m j some_bytes fits no_wrap =
    let count : block_end (last offset size) + 1 - block_start offset
        ≡ block_count offset size * 65536 =
      ground arith in
    let place : ahead (block_start offset) j ≡ ahead (offset % storage_size / 65536 * 65536) j =
      omega arith in
    zero_range_lem (block_start offset) (block_end (last offset size) + 1) m j (omega arith)
    ∙ rw (count, place) refl

-- `read_mirror` fills the first `size` bytes of the buffer with the bytes of the range, going round the
-- end of the storage, and leaves the rest. The size is below 2 ^ 32.
pub read_mirror-taken :
    (buffer m : Bytes) (offset size j : ℕ)
    → size < 2 ^ 32
    → read_mirror m buffer offset size j ≡ taken buffer 0 size (from m (offset % storage_size)) j
unfolding read_mirror update
read_mirror-taken buffer m offset size j short =
    for_range_inv (λ k b. (i : ℕ) → b i ≡ taken buffer 0 k (from m (offset % storage_size)) i)
      (λ i b. update b i (m (wrap ((offset + i) % 2 ^ 32)))) size 0 size buffer (omega arith) step
      (λ i. ground arith) j
  where
    step :
        (k : ℕ) (b : Bytes)
        → 0 ≤ k
        → k < size
        → ((i : ℕ) → b i ≡ taken buffer 0 k (from m (offset % storage_size)) i)
        → (i : ℕ)
        → update b k (m (wrap ((offset + k) % 2 ^ 32))) i
          ≡ taken buffer 0 (k + 1) (from m (offset % storage_size)) i
    step k b low high ih i =
        let same : wrap ((offset + k) % 2 ^ 32) ≡ (offset % storage_size + k) % storage_size =
          omega arith in
        rw same (ground (arith, ih i))
