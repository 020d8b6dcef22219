-- ===== src/Tester/Libc.antt =====
-- What the tester uses of the C library, a parameter of the model, and the tester's state.
use v_spells_nand_use_case.Prelude.{ℕ, ◌+◌, Option, Bytes}
use v_spells_nand_use_case.Device.Rig.{Rig}

-- Both functions are given the count of the calls of them so far.
pub record Libc : Type 0 where
  pub random : ℕ → ℕ
  -- `malloc(size)` and the contents of the block; `none` for `NULL`
  pub malloc : (calls size : ℕ) → Option Bytes

-- the test rig, the tester's mirror, and the counts of calls
pub record Session : Type 0 where
  pub rig : Rig
  pub mirror : Bytes
  pub randoms : ℕ
  pub mallocs : ℕ

-- the session after a call of `random` and of `malloc`
abbrev pub drawn : Session → Session
drawn s = record s { randoms = s.randoms + 1 }

abbrev pub allocated : Session → Session
allocated s = record s { mallocs = s.mallocs + 1 }
