-- ===== src/Driver/Registers.antt =====
-- The child's accesses to the IO registers and the pins (`nand_set_register` and the loads of the
-- drivers, framework/fw_gpio.c). Each access stops the child, and the emulator handles the trap before
-- the child goes on.
use v_spells_nand_use_case.Prelude.{ℕ, ◌%◌, ◌^◌, ◌==◌, if◌then◌else◌}
use v_spells_nand_use_case.Outcome.{Outcome, ok, stop, assertion, ◌>>=◌}
use v_spells_nand_use_case.Host.{Host}
use v_spells_nand_use_case.Device.Constants.{ioreg_data}
use v_spells_nand_use_case.Device.IoRegs.Laws.{read_reg, write_reg}
use v_spells_nand_use_case.Device.Rig.{Rig}
use v_spells_nand_use_case.Device.Parser.{handle_watchpoint_ioregisters}
use v_spells_nand_use_case.Device.Parser.Messages.{set_byte, get_byte}
use v_spells_nand_use_case.Device.Gpio.{handle_breakpoint_gpio_set, handle_breakpoint_gpio_get}

-- `value` is an `unsigned char`
unfoldable pub nand_set_register : Host → ℕ → ℕ → Rig → Outcome Rig
nand_set_register h offset value r =
    handle_watchpoint_ioregisters h h.store_text
      (record r { ioregisters = set_byte r.ioregisters offset (value % 256) })

-- A load from the data register: the byte that was in memory has reached the CPU register before the
-- trap, and the emulator may replace it.
unfoldable pub load_data : Host → Rig → Outcome (ℕ × Rig)
load_data h r = do
  let stale = get_byte r.ioregisters ioreg_data
  t ←
      handle_watchpoint_ioregisters h h.load_text
        (record r { regs = write_reg h.load_reg stale r.regs })
  ok (read_reg h.load_reg t.regs % 256, t)

unfoldable pub gpio_set : Host → ℕ → ℕ → Rig → Rig
unfolding handle_breakpoint_gpio_set
gpio_set h pin value r = handle_breakpoint_gpio_set h pin value r

abbrev pub dummy : ℕ
dummy = 0xab

unfoldable pub gpio_get : Host → ℕ → Rig → Outcome (ℕ × Rig)
unfolding handle_breakpoint_gpio_get
gpio_get h pin r = do
  (retval, r) ← handle_breakpoint_gpio_get h pin dummy r
  if retval == dummy then stop assertion else ok (retval % 2 ^ 32, r)
