-- ===== src/UnitTests/IoRegs.antt =====
-- The unit test of the CPU register update (device/test_ioregs.c, with the loads of device/test_patterns.s):
-- its child stores a wrong value to the IO registers and loads from them, and its parent replaces what is
-- loaded. The parent's other traps are those of a store, which it ignores.
pub mod Passes
use v_spells_nand_use_case.Prelude.{ℕ, ◌+◌, ◌*◌, ◌%◌, ◌^◌, Bool, true, false, List, [], ◌∷◌, ◌==◌}
use v_spells_nand_use_case.Outcome.{Outcome, ok, ◌>>=◌}
use v_spells_nand_use_case.Device.IoRegs.{Regs, update_tracee_cpu_registers}

abbrev pub value_incorrect : ℕ
value_incorrect = 0x0123456789abcdef

abbrev pub value_correct : ℕ
value_correct = 0xaa

-- the parent's flag, and the child's variable and CPU registers
pub record Trial : Type 0 where
  pub is_read : Bool
  pub ioregisters : ℕ
  pub regs : Regs

-- the parent's handler; `text` is the program text in front of the child's instruction pointer
read_trap : ℕ → Trial → Outcome Trial
read_trap text s = do
  regs ← update_tracee_cpu_registers text value_correct s.regs
  ok (record s { is_read = false; ioregisters = value_correct; regs = regs })

unfoldable pub handle_watchpoint : ℕ → Trial → Outcome Trial
unfolding read_trap
handle_watchpoint text s = elim s.is_read [
  | true ↦ read_trap text s
  | false ↦ ok (record s { is_read = true })
]

-- The text up to the end of `movq ioregisters(%rip), %rax`, with the last byte of the instruction in front of
-- it, `movq %rsp, %rbp`, and the displacement that the linker fills in.
abbrev pub pattern_text : ℕ → ℕ
pattern_text displacement =
    0xe5 + 0x48 * 2 ^ 8 + 0x8b * 2 ^ 16 + 0x05 * 2 ^ 24 + displacement * 2 ^ 32

-- `ioregisters = VALUE_INCORRECT`
unfoldable pub store_incorrect : ℕ → Trial → Outcome Trial
unfolding handle_watchpoint
store_incorrect text s = handle_watchpoint text (record s { ioregisters = value_incorrect })

-- Each of the functions loads to RAX, and returns it as an `unsigned int`.
unfoldable pub pattern : ℕ → Trial → Outcome (ℕ × Trial)
unfolding handle_watchpoint
pattern displacement s = do
  s ←
      handle_watchpoint (pattern_text displacement)
        (record s { regs = record s.regs { rax = s.ioregisters } })
  ok (s.regs.rax % 2 ^ 32, s)

-- one of the tests: a store and a load
unfoldable pub try_pattern : ℕ → ℕ → Trial → Outcome (ℕ × Trial)
unfolding store_incorrect pattern
try_pattern text displacement s = store_incorrect text s >>= λ s. pattern displacement s

-- What the child prints, over the displacements in the functions that it calls. `text` is that of its stores.
unfoldable pub tracee : ℕ → List ℕ → Trial → Outcome (List Bool × Trial)
unfolding try_pattern
tracee text [] s = ok ([], s)
tracee text (displacement ∷ ds) s = do
  (value, s) ← try_pattern text displacement s
  (rest, s) ← tracee text ds s
  ok ((value == value_correct) ∷ rest, s)
