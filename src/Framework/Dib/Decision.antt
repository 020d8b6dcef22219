-- ===== src/Framework/Dib/Decision.antt =====
-- Results that decide a proposition.
use v_spells_nand_use_case.Prelude.{
  ◌≡◌, ◌⊎◌, refl, inl, inr, not, ◌||◌, Bool, if◌then◌else◌, Reflects, holds, fails,
}
use v_spells_nand_use_case.Outcome.{Outcome, ok, ◌>>=◌}
use v_spells_nand_use_case.Driver.Interface.{Code, success, failure}

-- the result is 0 if `P` holds, and -1 if not
pub data Decides (P : Type 0) : Code → Type 0 where
  accepts : P → Decides P success
  rejects : ¬ P → Decides P failure

-- a last test, as an `if` of the result
pub Decides-if :
    {P Q : Type 0} {b : Bool}
    → Reflects P b
    → (P → Q)
    → (Q → P)
    → Decides Q (if b then success else failure)
Decides-if (holds p) to back = accepts (to p)
Decides-if (fails n) to back = rejects (λ q. n (back q))

-- a guard that returns -1 where `P` fails
pub Decides-unless :
    {P Q : Type 0} {b : Bool} {rest : Code}
    → Reflects P b
    → (Q → P)
    → (P → Decides Q rest)
    → Decides Q (if not b then failure else rest)
Decides-unless (holds p) needed next = next p
Decides-unless (fails n) needed next = rejects (λ q. n (needed q))

pub Decides-unless_both :
    {P Q R : Type 0} {a b : Bool} {rest : Code}
    → Reflects P a
    → Reflects Q b
    → (R → P × Q)
    → (P × Q → Decides R rest)
    → Decides R (if not a || not b then failure else rest)
Decides-unless_both (holds p) (holds q) needed next = next (p, q)
Decides-unless_both (holds p) (fails n) needed next = rejects (λ r. n (needed r).1)
Decides-unless_both (fails n) q needed next = rejects (λ r. n (needed r).0)

-- the run returns, and its result decides `P`
abbrev pub Settles : Type 0 → Outcome Code → Type 0
Settles P o = (code : Code) × (o ≡ ok code) × Decides P code

pub Settles-failure : {P : Type 0} → ¬ P → Settles P (ok failure)
Settles-failure n = (failure, refl, rejects n)

pub Settles-Decides : {P : Type 0} {code : Code} → Decides P code → Settles P (ok code)
Settles-Decides {code} d = (code, refl, d)

-- a call whose failure is returned, and what follows its success
pub Settles-then :
    {P Q : Type 0} {o rest : Outcome Code}
    → Settles P o
    → (Q → P)
    → (P → Settles Q rest)
    → Settles Q (o >>= λ code. elim code [ failure ↦ ok failure | success ↦ rest ])
Settles-then (success, e, accepts p) needed next = rw e (next p)
Settles-then (failure, e, rejects n) needed next = rw e (Settles-failure (λ q. n (needed q)))

pub Settles-map : {P Q : Type 0} {o : Outcome Code} → Settles P o → (P → Q) → (Q → P) → Settles Q o
Settles-map (success, e, accepts p) to back = (success, e, accepts (to p))
Settles-map (failure, e, rejects n) to back = (failure, e, rejects (λ q. n (back q)))

pub Settles-success : {P : Type 0} {o : Outcome Code} → Settles P o → P → o ≡ ok success
Settles-success (success, e, d) p = e
Settles-success (failure, e, rejects n) p = absurd (n p)

pub Settles-rejected : {P : Type 0} {o : Outcome Code} → Settles P o → ¬ P → o ≡ ok failure
Settles-rejected (success, e, accepts p) n = absurd (n p)
Settles-rejected (failure, e, d) n = e

pub Settles-cases :
    {P : Type 0} {o : Outcome Code} → Settles P o → (o ≡ ok success) ⊎ (o ≡ ok failure)
Settles-cases (success, e, d) = inl e
Settles-cases (failure, e, d) = inr e
