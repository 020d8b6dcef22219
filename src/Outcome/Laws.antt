-- ===== src/Outcome/Laws.antt =====
-- Equations between chains of calls.
use v_spells_nand_use_case.Prelude.{◌≡◌, refl, ap, fun_ext}
use v_spells_nand_use_case.Outcome.{Outcome, ok, stop, ◌>>=◌}

-- chains that begin with the same call and have equal rests
pub rest_eq :
    {A B : Type 0} (o : Outcome A) {f g : A → Outcome B}
    → ((a : A) → f a ≡ g a)
    → (o >>= f) ≡ (o >>= g)
rest_eq o same = ap (λ k. o >>= k) (fun_ext same)

pub same_rest :
    {A B C : Type 0} (o : Outcome A) {f : A → Outcome C} (g : A → Outcome B) (k : B → Outcome C)
    → ((a : A) → f a ≡ (g a >>= k))
    → (o >>= f) ≡ (o >>= g >>= k)
same_rest (ok a) g k rest = rest a
same_rest (stop e) g k rest = refl

-- a chain that ends with the value itself
pub return_value : {A : Type 0} (o : Outcome A) → (o >>= ok) ≡ o
return_value (ok a) = refl
return_value (stop e) = refl

-- a chain that ends with a value has gone through one
pub >>=-ok :
    {A B : Type 0} (o : Outcome A) (f : A → Outcome B) (b : B)
    → (o >>= f) ≡ ok b
    → (a : A) × (o ≡ ok a) × (f a ≡ ok b)
>>=-ok (ok a) f b e = (a, refl, e)
>>=-ok (stop e) f b stopped = cc

-- Two rests are the same if they are so for the values that the chain gives.
pub rest_eq_given :
    {A B : Type 0} (o : Outcome A) {f g : A → Outcome B}
    → ((a : A) → o ≡ ok a → f a ≡ g a)
    → (o >>= f) ≡ (o >>= g)
rest_eq_given (ok a) same = same a refl
rest_eq_given (stop e) same = refl
