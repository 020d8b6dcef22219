-- ===== src/Tester/Mirror/Ring.antt =====
-- Loops that store to successive places of a storage that goes round.
use v_spells_nand_use_case.Prelude.{
  ℕ, ◌+◌, ◌-◌, ◌%◌, ◌≤◌, ◌<◌, ◌≡◌, refl, sym, ap, inl, inr, Bool-cases, ◌∙◌, arith, Bytes, ◌==◌,
  ◌&&◌, ltb, if◌then◌else◌, update, for_range, for_range_inv,
}
use v_spells_nand_use_case.Device.Store.Laws.{storage_size}

-- how far `j` lies behind `start`, going round
abbrev pub ahead : ℕ → ℕ → ℕ
ahead start j = (j + storage_size - start % storage_size) % storage_size

-- `n` places from `start` on hold `v first`, `v (first + 1)` and so on
abbrev pub stretch : ℕ → ℕ → (ℕ → ℕ) → ℕ → Bytes → Bytes
stretch start n v first m j =
    if ltb j storage_size && ltb (ahead start j) n then v (first + ahead start j) else m j

ahead_place : (start k : ℕ) → k < storage_size → ahead start ((start + k) % storage_size) ≡ k
ahead_place start k hk = omega arith

place_ahead : (start j : ℕ) → j < storage_size → (start + ahead start j) % storage_size ≡ j
place_ahead start j hj = omega arith

stretch-update :
    (start k place : ℕ) (v : ℕ → ℕ) (first : ℕ) (m t : Bytes) (j : ℕ)
    → k < storage_size
    → place ≡ (start + k) % storage_size
    → t j ≡ stretch start k v first m j
    → update t place (v (first + k)) j ≡ stretch start (k + 1) v first m j
unfolding update
stretch-update start k place v first m t j hk ep e =
    let there : ahead start place ≡ k = rw ep (ahead_place start k hk) in
    let back : j < storage_size → ahead start j ≡ k → place ≡ j =
      λ hj ek. ep ∙ ap (λ (x : ℕ). (start + x) % storage_size) (sym ek) ∙ place_ahead start j hj in
    elim (Bool-cases (j == place)) [
      | inl hit ↦ let ej : j ≡ place = ground arith in rw (hit, ej, there) (ground arith)
      | inr miss ↦ rw (miss, e) (ground (arith, back))
    ]

-- what a loop leaves that stores `v i` at the place of `i`
pub ring_loop :
    (f v : ℕ → ℕ) (c first n : ℕ) (m : Bytes) (j : ℕ)
    → n ≤ storage_size
    → ((i : ℕ) → first ≤ i → i < first + n → f i ≡ (c + i) % storage_size)
    → for_range n first (λ i t. update t (f i) (v i)) m j ≡ stretch (c + first) n v first m j
ring_loop f v c first n m j hn hf = rw count at (
    for_range_inv (λ k t. (i : ℕ) → t i ≡ stretch (c + first) (k - first) v first m i)
      (λ i t. update t (f i) (v i)) n first (first + n) m refl step (λ i. ground arith) j)
  where
    count : first + n - first ≡ n
    count = omega arith

    step :
        (k : ℕ) (t : Bytes)
        → first ≤ k
        → k < first + n
        → ((i : ℕ) → t i ≡ stretch (c + first) (k - first) v first m i)
        → (i : ℕ) → update t (f k) (v k) i ≡ stretch (c + first) (k + 1 - first) v first m i
    step k t low high ih i =
        let e1 : first + (k - first) ≡ k = omega arith in
        let e2 : k - first + 1 ≡ k + 1 - first = omega arith in
        let place : f k ≡ (c + first + (k - first)) % storage_size =
          hf k low high ∙ ap (λ (x : ℕ). x % storage_size) (omega arith) in
        rw (e1, e2) at
          (stretch-update (c + first) (k - first) (f k) v first m t i (omega arith) place (ih i))
