-- ===== src/Driver/Bugs/Backward.antt =====
-- The read of alpha_6 (driver/alpha/alpha_6.c) is the correct read with its bytes in reverse order.
use v_spells_nand_use_case.Prelude.{
  ℕ, zero, suc, ◌+◌, ◌-◌, ◌≤◌, ◌<◌, ◌≡◌, refl, sym, ◌∙◌, arith, Bytes, update, inl, inr, ◌⊎◌,
}
use native.Mathlib.Decide.{dec_lt}
use v_spells_nand_use_case.Outcome.{Outcome, Stop, ok, stop, ◌>>=◌}
use v_spells_nand_use_case.Host.{Host}
use v_spells_nand_use_case.Device.Rig.{Rig}
use v_spells_nand_use_case.Driver.Alpha.{nand_read}
use v_spells_nand_use_case.Driver.Bugs.{backward_read}
use v_spells_nand_use_case.Driver.Registers.{load_data}

-- Two reads of `n` bytes, to `i` and to `k`, that stop alike, or end with the same rig and the same bytes in
-- reverse order, and change nothing else.
pub data SameReversed (a b : Bytes) (i k n : ℕ)
    : Outcome (Bytes × Rig) → Outcome (Bytes × Rig) → Type 0 where
  both_read :
      {a' b' : Bytes} {r : Rig}
      → ((j : ℕ) → j < n → b' (k + j) ≡ a' (i + (n - 1 - j)))
      → ((j : ℕ) → (j < i) ⊎ (i + n ≤ j) → a' j ≡ a j)
      → ((j : ℕ) → (j < k) ⊎ (k + n ≤ j) → b' j ≡ b j)
      → SameReversed a b i k n (ok (a', r)) (ok (b', r))
  both_stop : {e : Stop} → SameReversed a b i k n (stop e) (stop e)

updated_here : (c : Bytes) (at v : ℕ) → update c at v at ≡ v
unfolding update
updated_here c at v = ground arith

one_more :
    (a b : Bytes) (i k n v : ℕ) {o p : Outcome (Bytes × Rig)}
    → SameReversed (update a i v) (update b (k + n) v) (i + 1) k n o p
    → SameReversed a b i k (suc n) o p
unfolding update
one_more a b i k n v both_stop = both_stop
one_more a b i k n v (both_read {a' = a'} {b' = b'} same rest_a rest_b) =
    both_read reversed (λ j outside. rest_a j (later outside) ∙ apart_a j outside)
      (λ j outside. rest_b j (later_b outside) ∙ apart_b j outside)
  where
    reversed : (j : ℕ) → j < suc n → b' (k + j) ≡ a' (i + (suc n - 1 - j))
    reversed j inside = elim (dec_lt j n) [
      | yes low ↦
          let place : i + 1 + (n - 1 - j) ≡ i + (suc n - 1 - j) = omega arith in
          rw place at (same j low)
      | no high ↦
          let at_end : j ≡ n = omega arith in
          let at_start : i + (suc n - 1 - n) ≡ i = omega arith in
          rw (at_end, at_start)
            (rest_b (k + n) (inr (omega arith))
              ∙ updated_here b (k + n) v
              ∙ sym (rest_a i (inl (omega arith)) ∙ updated_here a i v))
    ]

    later : {j : ℕ} → (j < i) ⊎ (i + suc n ≤ j) → (j < i + 1) ⊎ (i + 1 + n ≤ j)
    later (inl low) = inl (omega arith)
    later (inr high) = inr (omega arith)

    later_b : {j : ℕ} → (j < k) ⊎ (k + suc n ≤ j) → (j < k) ⊎ (k + n ≤ j)
    later_b (inl low) = inl low
    later_b (inr high) = inr (omega arith)

    apart_a : (j : ℕ) → (j < i) ⊎ (i + suc n ≤ j) → update a i v j ≡ a j
    apart_a j outside = ground arith

    apart_b : (j : ℕ) → (j < k) ⊎ (k + suc n ≤ j) → update b (k + n) v j ≡ b j
    apart_b j outside = ground arith

-- two reads that begin with the same load
same_load :
    {a b : Bytes} {i k n : ℕ} (o : Outcome (ℕ × Rig)) {f g : ℕ × Rig → Outcome (Bytes × Rig)}
    → ((p : ℕ × Rig) → SameReversed a b i k n (f p) (g p))
    → SameReversed a b i k n (o >>= f) (o >>= g)
same_load (ok p) each = each p
same_load (stop e) each = both_stop

-- The read of alpha_6 makes the same loads as the correct read, with the same effect on the device, and puts
-- the bytes into the buffer in reverse order: they stop alike, or both read.
pub backward_read-nand_read :
    (h : Host) (a b : Bytes) (i k n : ℕ) (r : Rig)
    → SameReversed a b i k n (nand_read h a i n r) (backward_read h b k n r)
unfolding nand_read backward_read
backward_read-nand_read h a b i k zero r =
    both_read (λ j inside. absurd (omega arith)) (λ j outside. refl) (λ j outside. refl)
backward_read-nand_read h a b i k (suc n) r = same_load (load_data h r) λ (v, t).
    one_more a b i k n v
      (backward_read-nand_read h (update a i v) (update b (k + n) v) (i + 1) k n t)
