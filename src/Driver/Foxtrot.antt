-- ===== src/Driver/Foxtrot.antt =====
-- The drivers with an interpreter for operations (driver/foxtrot/). Their other functions do what those of
-- alpha_0 do. foxtrot_0 is the correct one.
pub mod Paths
pub mod Reads
pub mod Modulo
pub mod Five
use v_spells_nand_use_case.Prelude.{ℕ, Bytes, List, [], ◌∷◌}
use v_spells_nand_use_case.Outcome.{Outcome, ok, ◌>>=◌}
use v_spells_nand_use_case.Host.{Host}
use v_spells_nand_use_case.Device.Constants.{ioreg_command, ioreg_address}
use v_spells_nand_use_case.Device.Rig.{Rig}
use v_spells_nand_use_case.Driver.Interface.{
  Code, success, failure, NandOpInstr, cmd_instr, addr_instr, data_in_instr, data_out_instr,
  waitrdy_instr, NandDriver, nand_exec_op,
}
use v_spells_nand_use_case.Driver.Registers.{nand_set_register}
use v_spells_nand_use_case.Driver.Alpha.{nand_wait, nand_read, nand_program}

-- `for(int j = 0; j < addr_len; j++)`
unfoldable pub send_all : Host → List ℕ → Rig → Outcome Rig
send_all h [] r = ok r
send_all h (a ∷ addrs) r = nand_set_register h ioreg_address a r >>= λ r. send_all h addrs r

-- The loop over the instructions. The enumeration leaves out the types for which it returns -1.
unfoldable pub exec_op : Host → List NandOpInstr → Bytes → Rig → Outcome (Code × Bytes × Rig)
unfolding send_all
exec_op h [] buffer r = ok (success, buffer, r)
exec_op h (cmd_instr opcode ∷ is) buffer r =
    nand_set_register h ioreg_command opcode r >>= λ r. exec_op h is buffer r
exec_op h (addr_instr addrs ∷ is) buffer r = send_all h addrs r >>= λ r. exec_op h is buffer r
exec_op h (data_in_instr len index ∷ is) buffer r =
    nand_program h buffer index len r >>= λ r. exec_op h is buffer r
exec_op h (data_out_instr len index ∷ is) buffer r =
    nand_read h buffer index len r >>= λ (buffer, r). exec_op h is buffer r
exec_op h (waitrdy_instr timeout ∷ is) buffer r = nand_wait h timeout r >>= λ (code, r). elim code [
  | failure ↦ ok (failure, buffer, r)
  | success ↦ exec_op h is buffer r
]

-- `get_driver`
abbrev pub interpreter : Host → NandDriver
interpreter h = nand_exec_op (exec_op h)
