-- ===== src/Outcome.antt =====
-- How a run of the test rig ends: with a value, or with the process that executes the code stopped.
-- The two processes never run at once, so one result type serves both.
pub mod Laws
use v_spells_nand_use_case.Prelude.{ℕ}

-- why a process stopped
pub data Stop : Type 0 where
  -- `clock_gettime` failed in the host's state given; `now` exits with -1
  clock_failed : ℕ → Stop
  -- the emulator received a message in its bug state and called `exit(1)`
  machine_bug : Stop
  -- the emulator could not decode the tracee's instruction (`error_dump`)
  undecoded : Stop
  -- a test program called `exit(-1)`
  quit : Stop
  -- the alarm of a test program rang, and its handler called `exit(-1)`
  alarmed : Stop
  -- an `assert` failed
  assertion : Stop
  -- an access through a null pointer or outside an array, for which the language promises nothing
  invalid_access : Stop
  -- the fuel of a loop ran out: the loop is still running
  out_of_fuel : Stop

pub data Outcome {ℓ} (A : Type ℓ) : Type ℓ where
  ok : A → Outcome A
  stop : Stop → Outcome A

infixl 5 ◌>>=◌ ◌>>◌
abbrev pub ◌>>=◌ {ℓ κ} : {A : Type ℓ} {B : Type κ} → Outcome A → (A → Outcome B) → Outcome B
ok a >>= f = f a
stop e >>= f = stop e

abbrev pub ◌>>◌ {ℓ} : {B : Type ℓ} → Outcome (Unit {0}) → Outcome B → Outcome B
m >> k = m >>= λ _. k
