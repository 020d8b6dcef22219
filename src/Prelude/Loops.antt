-- ===== src/Prelude/Loops.antt =====
-- C arrays as functions of the index, with the stores of the language and of `memset` and `memcpy`,
-- and the loop `for (i = first; i < first + n; i++)`.
use Prim.Native.Nat.{ℕ, zero, suc, ◌+◌, ◌-◌, ◌≤◌, ◌<◌}
use mathlib.Core.Path.{◌≡◌, subst}
use mathlib.Core.Bool.{◌&&◌}
use native.Mathlib.Omega.{arith}
use v_spells_nand_use_case.Prelude.Tests.{ltb, leb, ◌==◌, if◌then◌else◌}

abbrev pub Bytes : Type 0
Bytes = ℕ → ℕ

-- `a[i] = v`
unfoldable pub update : Bytes → ℕ → ℕ → Bytes
update a i v j = if j == i then v else a j

-- `memset(&a[at], v, n)`
unfoldable pub memset : Bytes → ℕ → ℕ → ℕ → Bytes
memset a at v n j = if leb at j && ltb j (at + n) then v else a j

-- `memcpy(&a[at], &b[from], n)`
unfoldable pub memcpy : Bytes → ℕ → Bytes → ℕ → ℕ → Bytes
memcpy a at b from n j = if leb at j && ltb j (at + n) then b (from + (j - at)) else a j

unfoldable pub for_range {ℓ} : {State : Type ℓ} → ℕ → ℕ → (ℕ → State → State) → State → State
for_range zero first round state = state
for_range (suc rounds) first round state = for_range rounds (first + 1) round (round first state)

-- What holds before the loop and is kept by each of its rounds holds after it, at its `past` index.
pub for_range_inv {ℓ κ} :
    {State : Type ℓ} (Inv : ℕ → State → Type κ) (round : ℕ → State → State) (rounds first past : ℕ)
    (state : State)
    → first + rounds ≡ past
    → ((k : ℕ) (t : State) → first ≤ k → k < past → Inv k t → Inv (k + 1) (round k t))
    → Inv first state
    → Inv past (for_range rounds first round state)
unfolding for_range
for_range_inv Inv round zero first past state ends keeps before =
    let none : first ≡ past = omega arith in subst (λ k. Inv k state) none before
for_range_inv Inv round (suc rounds) first past state ends keeps before =
    for_range_inv Inv round rounds (first + 1) past (round first state) (omega arith)
      (λ k t low. keeps k t (omega arith)) (keeps first state (omega arith) (omega arith) before)
