-- ===== src/Device/Rig.antt =====
-- What a trap handler of the emulator works on: the child's IO register word and CPU registers, the
-- emulator's variables (device/de_parser.c, de_deadline.c, de_store.c), and the host.
use v_spells_nand_use_case.Prelude.{ℕ}
use v_spells_nand_use_case.Device.Store.{Store}
use v_spells_nand_use_case.Device.IoRegs.{Regs}

-- the parser's states
pub data MachineState : Type 0 where
  initial_state : MachineState
  bug : MachineState
  read_awaiting_block_address : MachineState
  read_awaiting_page_address : MachineState
  read_awaiting_byte_address : MachineState
  read_awaiting_execute : MachineState
  read_providing_data : MachineState
  program_awaiting_block_address : MachineState
  program_awaiting_page_address : MachineState
  program_awaiting_byte_address : MachineState
  program_accepting_data : MachineState
  erase_awaiting_block_address : MachineState
  erase_awaiting_execute : MachineState

pub record Rig : Type 0 where
  -- the host's state
  pub instant : ℕ
  -- the child's `ioregisters` variable and its CPU registers
  pub ioregisters : ℕ
  pub regs : Regs
  -- the static variable `curCmd` of the drivers that have one
  pub cur_cmd : ℕ
  -- the emulator's variables
  pub machine_state : MachineState
  pub deadline : ℕ
  pub store : Store
