-- ===== src/Framework.antt =====
-- The framework (framework/): reads, writes and erases by a driver's jump table or by an operation
-- for its interpreter, and the choice between them (framework/framework.c).
pub mod JumpTable
pub mod ExecOp
pub mod Dib
use v_spells_nand_use_case.Prelude.{ℕ, Bytes}
use v_spells_nand_use_case.Outcome.{Outcome}
use v_spells_nand_use_case.Device.Rig.{Rig}
use v_spells_nand_use_case.Driver.Interface.{Code, NandDriver, nand_jump_table, nand_exec_op}
use JumpTable.{jt_write, jt_read, jt_erase}
use ExecOp.{exec_write, exec_read, exec_erase}

-- The enumeration leaves out the values of `driver.type` for which these return -1.
unfoldable pub write_nand : NandDriver → Bytes → ℕ → ℕ → Rig → Outcome (Code × Rig)
write_nand (nand_jump_table jt) buffer offset size r = jt_write jt buffer offset size r
write_nand (nand_exec_op exec_op) buffer offset size r = exec_write exec_op buffer offset size r

unfoldable pub read_nand : NandDriver → Bytes → ℕ → ℕ → Rig → Outcome (Code × Bytes × Rig)
read_nand (nand_jump_table jt) buffer offset size r = jt_read jt buffer offset size r
read_nand (nand_exec_op exec_op) buffer offset size r = exec_read exec_op buffer offset size r

unfoldable pub erase_nand : NandDriver → ℕ → ℕ → Rig → Outcome (Code × Rig)
erase_nand (nand_jump_table jt) offset size r = jt_erase jt offset size r
erase_nand (nand_exec_op exec_op) offset size r = exec_erase exec_op offset size r
