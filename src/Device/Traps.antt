-- ===== src/Device/Traps.antt =====
-- The tracer's loop (device/de_device.c, and RIP_IN_FUNCTION of framework/framework.h): which handler
-- a stop of the child goes to. The addresses of `gpio_set` and `gpio_get` are the linker's.
pub mod Safety
use v_spells_nand_use_case.Prelude.{ℕ, ◌+◌, Bool, ◌&&◌, ltb, leb, List, [], ◌∷◌, if◌then◌else◌}
use v_spells_nand_use_case.Outcome.{Outcome, ok, ◌>>=◌}
use v_spells_nand_use_case.Host.{Host}
use v_spells_nand_use_case.Device.IoRegs.{Regs}
use v_spells_nand_use_case.Device.Rig.{Rig}
use v_spells_nand_use_case.Device.Parser.{parser_init, handle_watchpoint_ioregisters}
use v_spells_nand_use_case.Device.Gpio.{handle_breakpoint_gpio_set, handle_breakpoint_gpio_get}

abbrev pub gpio_set_length : ℕ
gpio_set_length = 0x0e

abbrev pub gpio_get_length : ℕ
gpio_get_length = 0x43

abbrev pub rip_in_function : ℕ → ℕ → ℕ → Bool
rip_in_function a f l = leb f a && ltb a (f + l)

-- where the child's two pin functions lie
pub record Layout : Type 0 where
  pub gpio_set : ℕ
  pub gpio_get : ℕ

-- the child as `wait` finds it
pub record Tracee : Type 0 where
  pub rip : ℕ
  pub rdi : ℕ
  pub rsi : ℕ
  pub regs : Regs
  -- the program text in front of `rip`, its `ioregisters` and the local variable of `gpio_get`
  pub text : ℕ
  pub ioregisters : ℕ
  pub retval : ℕ

-- the result of `wait`
pub data Wait : Type 0 where
  exited : Wait
  stopped : Tracee → Wait

-- one round of the loop on a stopped child: what `retval` then holds, and the rig
unfoldable pub handle_trap : Layout → Host → Tracee → Rig → Outcome (ℕ × Rig)
handle_trap l h c s =
    let r = record s { ioregisters = c.ioregisters; regs = c.regs } in
    if rip_in_function c.rip l.gpio_set gpio_set_length
    then ok (c.retval, handle_breakpoint_gpio_set h c.rdi c.rsi r)
    else if rip_in_function c.rip l.gpio_get gpio_get_length
    then handle_breakpoint_gpio_get h c.rdi c.retval r
    else handle_watchpoint_ioregisters h c.text r >>= λ t. ok (c.retval, t)

-- `while (1)`, over what each `wait` finds
unfoldable pub trap_loop : Layout → Host → List Wait → Rig → Outcome Rig
trap_loop l h [] r = ok r
trap_loop l h (exited ∷ ws) r = ok r
trap_loop l h (stopped c ∷ ws) r = handle_trap l h c r >>= λ (_, t). trap_loop l h ws t

unfoldable pub device_init : Layout → Host → List Wait → Rig → Outcome Rig
unfolding trap_loop
device_init l h ws r = trap_loop l h ws (parser_init r)
