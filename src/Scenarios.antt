-- ===== src/Scenarios.antt =====
-- What the runs on concrete inputs share: a host whose clock counts its own states, and an idle test rig on it.
pub mod Transfers
pub mod Parts
pub mod Tests
pub mod Blocks
pub mod Units
pub mod Waits
use v_spells_nand_use_case.Prelude.{
  ℕ, ◌+◌, ◌*◌, ◌/◌, ◌%◌, ◌^◌, ◌<◌, ◌≡◌, refl, arith, Option, none, some, inl, Bytes, ltb,
  if◌then◌else◌, List, [], ◌∷◌,
}
use v_spells_nand_use_case.Host.{Timespec, Host, ax}
use v_spells_nand_use_case.Clock.Laws.{IsHost}
use v_spells_nand_use_case.Device.Rig.{initial_state, Rig}
use v_spells_nand_use_case.Driver.Interface.{NandOpInstr, cmd_instr}
use v_spells_nand_use_case.Transfer.Phase.{IsIdle}

abbrev pub clock_at : ℕ → Option Timespec
clock_at i =
    if ltb (i / 1000000000) (2 ^ 43)
    then some (record { tv_sec = i / 1000000000; tv_nsec = i % 1000000000 })
    else none

-- a state of this host is the time in nanoseconds, and its load is `movzbl (%rax), %eax`
abbrev pub test_host : Host
test_host = record {
  clock_gettime = clock_at;
  resume = λ i. i + 1;
  usleep = λ us i. i + 1000 * us;
  load_reg = ax;
  load_text = 0x00b60f0000000000;
  store_text = 0;
}

pub clock_at-reads :
    (i : ℕ) (ts : Timespec)
    → clock_at i ≡ some ts
    → (ts.tv_sec * 1000000000 + ts.tv_nsec ≡ i) × (ts.tv_nsec < 1000000000) × (ts.tv_sec < 2 ^ 43)
clock_at-reads i ts e = ground arith

abbrev pub test_host-IsHost : IsHost test_host
test_host-IsHost = record {
  elapsed = λ i. i;
  resume_grows = λ i. omega arith;
  usleep_grows = λ us i. omega arith;
  reads = clock_at-reads;
}

abbrev pub zeroes : Bytes
zeroes i = 0

abbrev pub counting : Bytes
counting i = i % 256

abbrev pub test_rig : Rig
test_rig = record {
  instant = 5000;
  ioregisters = 0;
  regs = record { rax = 0; rcx = 0; rdx = 0 };
  cur_cmd = 0;
  machine_state = initial_state;
  deadline = 0;
  store = record { cursor = 0; data_store = zeroes; cache = zeroes };
}

pub test_rig-IsIdle : IsIdle test_host-IsHost zeroes test_rig
test_rig-IsIdle = record {
  between = inl (refl, λ j hj. refl);
  ready = omega arith;
  bounded = omega arith;
  holds = λ j. refl;
}

pub small_bytes : (i : ℕ) → counting i < 256
small_bytes i = omega arith

pub zero_bytes : (i : ℕ) → zeroes i < 256
zero_bytes i = omega arith

abbrev pub eight_setups : List NandOpInstr
eight_setups =
    cmd_instr 1
    ∷ cmd_instr 1
    ∷ cmd_instr 1
    ∷ cmd_instr 1
    ∷ cmd_instr 1
    ∷ cmd_instr 1
    ∷ cmd_instr 1
    ∷ cmd_instr 1
    ∷ []
