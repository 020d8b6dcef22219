-- ===== src/Driver/Interface.antt =====
-- What a driver gives the framework (framework/framework.h, driver/driver.h).
use v_spells_nand_use_case.Prelude.{ℕ, ◌+◌, List, Bytes}
use v_spells_nand_use_case.Outcome.{Outcome}
use v_spells_nand_use_case.Device.Constants.{
  read_page_duration, write_page_duration, erase_block_duration,
}
use v_spells_nand_use_case.Device.Rig.{Rig}

abbrev pub nand_poll_interval_us : ℕ
nand_poll_interval_us = 25

abbrev pub timeout_read_page_us : ℕ
timeout_read_page_us = read_page_duration + nand_poll_interval_us

abbrev pub timeout_write_page_us : ℕ
timeout_write_page_us = write_page_duration + nand_poll_interval_us

abbrev pub timeout_erase_block_us : ℕ
timeout_erase_block_us = erase_block_duration + nand_poll_interval_us

-- the two values of an `int` result, 0 and -1
pub data Code : Type 0 where
  success failure : Code

-- A pointer into a buffer is the buffer and an index.
pub record JumpTable : Type 0 where
  pub set_register : ℕ → ℕ → Rig → Outcome Rig
  -- the buffer, the index to read to, and the count of bytes
  pub read_buffer : Bytes → ℕ → ℕ → Rig → Outcome (Bytes × Rig)
  pub write_buffer : Bytes → ℕ → ℕ → Rig → Outcome Rig
  pub wait_ready : ℕ → Rig → Outcome (Code × Rig)

-- `struct nand_op_instr`: the enumeration tells which member of the union is meant. A data
-- instruction holds the index in the caller's buffer.
pub data NandOpInstr : Type 0 where
  cmd_instr : ℕ → NandOpInstr
  addr_instr : List ℕ → NandOpInstr
  data_in_instr : (len index : ℕ) → NandOpInstr
  data_out_instr : (len index : ℕ) → NandOpInstr
  waitrdy_instr : ℕ → NandOpInstr

-- A driver has the jump table or the interpreter `exec_op`, which is given the caller's buffer, from
-- which data goes out and into which data comes in.
pub data NandDriver : Type 0 where
  nand_jump_table : JumpTable → NandDriver
  nand_exec_op : (List NandOpInstr → Bytes → Rig → Outcome (Code × Bytes × Rig)) → NandDriver
