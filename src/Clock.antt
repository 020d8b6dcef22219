-- ===== src/Clock.antt =====
-- The clock (clock/clock.c, clock/clock.h) over the host that both processes run on.
pub mod Laws
use v_spells_nand_use_case.Prelude.{ℕ, ◌+◌, ◌*◌, ◌/◌, ◌%◌, ◌^◌, none, some}
use v_spells_nand_use_case.Outcome.{Outcome, ok, stop, clock_failed}
use v_spells_nand_use_case.Host.{Host}

-- `timeus_t` is `unsigned long`
abbrev pub timeus : ℕ → ℕ
timeus n = n % 2 ^ 64

abbrev pub s_to_us : ℕ → ℕ
s_to_us s = timeus (s * 1000000)

abbrev pub ns_to_us : ℕ → ℕ
ns_to_us ns = ns / 1000

-- `now`: the time, and the host's state after the call
unfoldable pub now : Host → ℕ → Outcome (ℕ × ℕ)
now h i = elim (h.clock_gettime i) [
  | none ↦ stop (clock_failed i)
  | some ts ↦ ok (timeus (s_to_us ts.tv_sec + ns_to_us ts.tv_nsec), h.resume i)
]
