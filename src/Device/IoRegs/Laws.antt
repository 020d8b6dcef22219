-- ===== src/Device/IoRegs/Laws.antt =====
-- Which instructions the disassembler knows, and that it never updates a register wrongly.
use v_spells_nand_use_case.Prelude.{
  ℕ, ◌≡◌, refl, ◌==◌, if◌then◌else◌, Option, none, some, arith, ◌&&◌,
}
use v_spells_nand_use_case.Host.{Host, Reg, ax, cx, dx}
use v_spells_nand_use_case.Outcome.{Outcome, ok, stop, undecoded}
use v_spells_nand_use_case.Device.IoRegs.{Regs, byte, update_tracee_cpu_registers}

abbrev pub read_reg : Reg → Regs → ℕ
read_reg ax regs = regs.rax
read_reg cx regs = regs.rcx
read_reg dx regs = regs.rdx

abbrev pub write_reg : Reg → ℕ → Regs → Regs
write_reg ax v regs = record regs { rax = v }
write_reg cx v regs = record regs { rcx = v }
write_reg dx v regs = record regs { rdx = v }

pub read_reg-write_reg : (k : Reg) (v : ℕ) (regs : Regs) → read_reg k (write_reg k v regs) ≡ v
read_reg-write_reg ax v regs = refl
read_reg-write_reg cx v regs = refl
read_reg-write_reg dx v regs = refl

-- the register of a `movzbl (r), r`, by its last three bytes
abbrev pub movzbl_dest : ℕ → Option Reg
movzbl_dest bytes =
    if byte bytes 5 == 0x0f && byte bytes 6 == 0xb6
    then (if byte bytes 7 == 0x00
        then some ax
        else if byte bytes 7 == 0x09
        then some cx
        else if byte bytes 7 == 0x12
        then some dx
        else none)
    else none

-- the register of a `mov disp(rip), r`, by the first three of its seven bytes
abbrev pub mov_dest : ℕ → Option Reg
mov_dest bytes =
    if byte bytes 1 == 0x48 && byte bytes 2 == 0x8b
    then (if byte bytes 3 == 0x05
        then some ax
        else if byte bytes 3 == 0x0d
        then some cx
        else if byte bytes 3 == 0x15
        then some dx
        else none)
    else none

-- the register of the load, where exactly one reading is possible
abbrev pub exactly_one : Option Reg → Option Reg → Option Reg
exactly_one none none = none
exactly_one (some d) none = some d
exactly_one none (some d) = some d
exactly_one (some d) (some e) = none

abbrev pub destination : ℕ → Option Reg
destination bytes = exactly_one (movzbl_dest bytes) (mov_dest bytes)

-- the compiler's load from the IO registers is one of the two, and writes the register it names
abbrev pub IsDecodable : Host → Type 0
IsDecodable h = destination h.load_text ≡ some h.load_reg

abbrev pub updated : Option Reg → ℕ → Regs → Outcome Regs
updated none value regs = stop undecoded
updated (some d) value regs = ok (write_reg d value regs)

-- If the bytes read as exactly one of the two load instructions, the update writes the register of
-- that load and no other; on bytes that read as neither or as both it stops the emulator.
pub update_decodes :
    (bytes value : ℕ) (regs : Regs)
    → update_tracee_cpu_registers bytes value regs ≡ updated (destination bytes) value regs
unfolding update_tracee_cpu_registers
update_decodes bytes value regs = ground arith
