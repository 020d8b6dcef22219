-- ===== src/Host.antt =====
-- What the code uses of the operating system, the CPU and the compiler: a parameter of the model.
use v_spells_nand_use_case.Prelude.{ℕ, Option}

-- `struct timespec`
pub record Timespec : Type 0 where
  pub tv_sec : ℕ
  pub tv_nsec : ℕ

-- a general-purpose register that a compiled load can write
pub data Reg : Type 0 where
  ax cx dx : Reg

-- What the code calls of the operating system and what the compiler makes of a load from the IO
-- registers. A number stands for the host's whole state.
pub record Host : Type 0 where
  -- `clock_gettime(CLOCK_MONOTONIC, &ts)`, `none` for a nonzero result
  pub clock_gettime : ℕ → Option Timespec
  -- the host's state once the caller runs on
  pub resume : ℕ → ℕ
  -- the host's state once `usleep(us)` returns
  pub usleep : ℕ → ℕ → ℕ
  -- the CPU register that a driver's load from the IO registers writes
  pub load_reg : Reg
  -- the eight bytes of program text up to the end of a driver's load from the IO registers
  pub load_text : ℕ
  -- the same for a driver's store to the IO registers
  pub store_text : ℕ
