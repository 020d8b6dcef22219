-- ===== src/Tester/Data/Laws.antt =====
-- What the tester's buffer operations return.
use v_spells_nand_use_case.Prelude.{
  ℕ, zero, suc, ◌+◌, ◌≤◌, ◌<◌, ◌≡◌, ◌≢◌, refl, arith, Bytes, true, update, for_range_inv, ltb, ◌==◌,
  if◌then◌else◌, inl, inr, Bool-cases,
}
use v_spells_nand_use_case.Tester.Data.{
  is_printable, to_printable, data_init, compare_loop, data_compare, zeroes_loop,
  data_confirm_zeroes,
}

-- `n` is the first index below `past`, from `first` on, at which the two differ, or `past`
pub record IsFirstDifference (b1 b2 : Bytes) (first past n : ℕ) : Type 0 where
  pub low : first ≤ n
  pub high : n ≤ past
  pub same : (j : ℕ) → first ≤ j → j < n → b1 j ≡ b2 j
  pub differ : n < past → b1 n ≢ b2 n

IsFirstDifference-here :
    (b1 b2 : Bytes) (i past : ℕ)
    → i ≤ past
    → (i < past → b1 i ≢ b2 i)
    → IsFirstDifference b1 b2 i past i
IsFirstDifference-here b1 b2 i past inside differ = record {
  low = omega arith;
  high = inside;
  same = λ j low high. absurd (omega arith);
  differ = differ;
}

IsFirstDifference-on :
    (b1 b2 : Bytes) (i past n : ℕ)
    → b1 i ≡ b2 i
    → IsFirstDifference b1 b2 (i + 1) past n
    → IsFirstDifference b1 b2 i past n
IsFirstDifference-on b1 b2 i past n e f = record {
  low = omega (arith, f.low);
  high = f.high;
  same = λ j low high. ground (arith, f.same j);
  differ = f.differ;
}

compare_loop-IsFirstDifference :
    (b1 b2 : Bytes) (left i past : ℕ)
    → i + left ≡ past
    → IsFirstDifference b1 b2 i past (compare_loop b1 b2 left i)
unfolding compare_loop
compare_loop-IsFirstDifference b1 b2 zero i past e =
    IsFirstDifference-here b1 b2 i past (omega arith) (λ l. absurd (omega arith))
compare_loop-IsFirstDifference b1 b2 (suc left) i past e = elim (Bool-cases (b1 i == b2 i)) [
  | inl same ↦ rw same (
      IsFirstDifference-on b1 b2 i past _ (ground arith)
        (compare_loop-IsFirstDifference b1 b2 left (i + 1) past (omega arith)))
  | inr other ↦ rw other (IsFirstDifference-here b1 b2 i past (omega arith) (λ l. ground arith))
]

-- `data_compare` returns the first index at which the buffers differ, or the length if there is none.
pub data_compare-IsFirstDifference :
    (b1 b2 : Bytes) (length : ℕ) → IsFirstDifference b1 b2 0 length (data_compare b1 b2 length)
unfolding data_compare
data_compare-IsFirstDifference b1 b2 length =
    compare_loop-IsFirstDifference b1 b2 length 0 length (omega arith)

-- equal buffers
pub equal-compare :
    (b1 b2 : Bytes) (length : ℕ)
    → ((j : ℕ) → j < length → b1 j ≡ b2 j)
    → data_compare b1 b2 length ≡ length
equal-compare b1 b2 length same =
    let f = data_compare-IsFirstDifference b1 b2 length in
    ground (arith, f.high, f.differ, same (data_compare b1 b2 length))

zeroes_loop-compare :
    (b : Bytes) (left i : ℕ) → zeroes_loop b left i ≡ compare_loop b (λ _. 0) left i
unfolding zeroes_loop compare_loop
zeroes_loop-compare b zero i = refl
zeroes_loop-compare b (suc left) i = rw (zeroes_loop-compare b left (i + 1)) refl

-- `data_confirm_zeroes` is a comparison with a buffer of zeroes.
pub data_confirm_zeroes-data_compare :
    (b : Bytes) (length : ℕ) → data_confirm_zeroes b length ≡ data_compare b (λ _. 0) length
unfolding data_confirm_zeroes data_compare
data_confirm_zeroes-data_compare b length = zeroes_loop-compare b length 0

-- `data_init` fills the first `length` bytes of the buffer with printable characters, and changes nothing
-- behind them.
pub data_init-is_printable :
    (buffer : Bytes) (length j : ℕ)
    → (j < length → is_printable (data_init buffer length j) ≡ true)
      × (length ≤ j → data_init buffer length j ≡ buffer j)
unfolding data_init update
data_init-is_printable buffer length j =
    let filled : data_init buffer length j ≡ (if ltb j length then to_printable j else buffer j) =
      for_range_inv (λ k b. (i : ℕ) → b i ≡ (if ltb i k then to_printable i else buffer i))
        (λ i b. update b i (to_printable i)) length 0 length buffer (omega arith) step
        (λ i. ground arith) j in
    (λ inside. rw filled (ground arith), λ behind. rw filled (ground arith))
  where
    step :
        (k : ℕ) (b : Bytes)
        → 0 ≤ k
        → k < length
        → ((i : ℕ) → b i ≡ (if ltb i k then to_printable i else buffer i))
        → (i : ℕ)
        → update b k (to_printable k) i ≡ (if ltb i (k + 1) then to_printable i else buffer i)
    step k b low high ih i = ground (arith, ih i)

-- so a buffer of bytes stays one
pub data_init-bytes :
    (buffer : Bytes) (length : ℕ)
    → ((i : ℕ) → buffer i < 256)
    → (i : ℕ) → data_init buffer length i < 256
data_init-bytes buffer length small i =
    ground (arith, data_init-is_printable buffer length i, small i)
