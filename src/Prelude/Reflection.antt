-- ===== src/Prelude/Reflection.antt =====
-- Boolean tests that decide a proposition, and their combinations.
use Prim.Native.Nat.{ℕ}
use mathlib.Core.Path.{◌≡◌}
use mathlib.Core.Logic.{◌⊎◌, inl, inr}
use mathlib.Core.Bool.{Bool, true, false, ◌||◌}
use native.Mathlib.Omega.{arith}
use v_spells_nand_use_case.Prelude.Tests.{◌==◌, if◌then◌else◌, Bool-cases}

pub data Reflects {ℓ} (P : Type ℓ) : Bool → Type ℓ where
  holds : P → Reflects P true
  fails : ¬ P → Reflects P false

pub Reflects-map {ℓ κ} :
    {P : Type ℓ} {Q : Type κ} {b : Bool} → Reflects P b → (P → Q) → (Q → P) → Reflects Q b
Reflects-map (holds p) to back = holds (to p)
Reflects-map (fails n) to back = fails (λ q. n (back q))

pub Reflects-or {ℓ κ} :
    {P : Type ℓ} {Q : Type κ} {a b : Bool} → Reflects P a → Reflects Q b → Reflects (P ⊎ Q) (a || b)
Reflects-or (holds p) q = holds (inl p)
Reflects-or (fails n) (holds q) = holds (inr q)
Reflects-or (fails n) (fails k) = fails (λ s. elim s [ inl p ↦ n p | inr q ↦ k q ])

pub Reflects-if {ℓ κ} :
    {P : Type ℓ} {Q : Type κ} {b x y : Bool}
    → Reflects P b
    → (P → Reflects Q x)
    → (¬ P → Reflects Q y)
    → Reflects Q (if b then x else y)
Reflects-if (holds p) first second = first p
Reflects-if (fails n) first second = second n

pub ==-Reflects : (a b : ℕ) → Reflects (a ≡ b) (a == b)
==-Reflects a b = elim (Bool-cases (a == b)) [
  | inl e ↦ rw e (holds (ground arith))
  | inr e ↦ rw e (fails (λ same. ground arith))
]
