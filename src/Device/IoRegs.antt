-- ===== src/Device/IoRegs.antt =====
-- Updating the tracee's CPU registers (device/de_ioregs.c, device/de_ioregs.h): a small disassembler
-- for the eight bytes of program text that end where the tracee stopped. `ioregs_init` only sets the
-- debug registers of the CPU, and `error_dump` prints and exits.
pub mod Laws
use v_spells_nand_use_case.Prelude.{
  ℕ, ◌*◌, ◌/◌, ◌^◌, bit_and, Bool, true, ◌&&◌, ◌||◌, ◌==◌, if◌then◌else◌,
}
use v_spells_nand_use_case.Outcome.{Outcome, ok, stop, undecoded, ◌>>=◌}

abbrev pub mask_command : ℕ
mask_command = 0x00ff0000

abbrev pub mask_address : ℕ
mask_address = 0x0000ff00

abbrev pub mask_data : ℕ
mask_data = 0x000000ff

abbrev pub command_shift : ℕ
command_shift = 16

abbrev pub address_shift : ℕ
address_shift = 8

-- the `n`-th byte of a word
abbrev pub byte : ℕ → ℕ → ℕ
byte ul n = bit_and (ul / 2 ^ (n * 8)) 0xff

abbrev pub modrm_movzbl : ℕ
modrm_movzbl = 7

abbrev pub modrm_mov : ℕ
modrm_mov = 3

unfoldable pub pattern_movzbl : ℕ → Bool
pattern_movzbl ul =
    byte ul 5 == 0x0f
    && byte ul 6 == 0xb6
    && (byte ul modrm_movzbl == 0x00
        || byte ul modrm_movzbl == 0x09
        || byte ul modrm_movzbl == 0x12)

unfoldable pub pattern_mov : ℕ → Bool
pattern_mov ul =
    byte ul 1 == 0x48
    && byte ul 2 == 0x8b
    && (byte ul modrm_mov == 0x05 || byte ul modrm_mov == 0x0d || byte ul modrm_mov == 0x15)

-- the registers of `struct user_regs_struct` that the emulator writes
pub record Regs : Type 0 where
  pub rax : ℕ
  pub rcx : ℕ
  pub rdx : ℕ

-- the ModR/M byte of the load, or `error_dump`
unfoldable pub find_modrm : ℕ → Outcome ℕ
unfolding pattern_movzbl pattern_mov
find_modrm bytes =
    if pattern_movzbl bytes && pattern_mov bytes
    then stop undecoded
    else if pattern_movzbl bytes
    then ok (byte bytes modrm_movzbl)
    else if pattern_mov bytes
    then ok (byte bytes modrm_mov)
    else stop undecoded

-- the `switch` on the ModR/M byte
unfoldable pub set_register_of : ℕ → ℕ → Regs → Outcome Regs
set_register_of modrm value regs =
    if modrm == 0x00 || modrm == 0x05
    then ok (record regs { rax = value })
    else if modrm == 0x09 || modrm == 0x0d
    then ok (record regs { rcx = value })
    else if modrm == 0x12 || modrm == 0x15
    then ok (record regs { rdx = value })
    else stop undecoded

-- `bytes` is what `PTRACE_PEEKDATA` reads in front of the tracee's instruction pointer
unfoldable pub update_tracee_cpu_registers : ℕ → ℕ → Regs → Outcome Regs
unfolding find_modrm set_register_of
update_tracee_cpu_registers bytes value regs = do
  modrm ← find_modrm bytes
  set_register_of modrm value regs
