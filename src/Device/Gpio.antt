-- ===== src/Device/Gpio.antt =====
-- The emulator's side of the pins (device/de_gpio.c).
use v_spells_nand_use_case.Prelude.{ℕ, ◌&&◌, ◌==◌, if◌then◌else◌}
use v_spells_nand_use_case.Outcome.{Outcome, ok, ◌>>=◌}
use v_spells_nand_use_case.Host.{Host}
use v_spells_nand_use_case.Device.Constants.{
  pn_status, pn_reset, device_busy, device_ready, reset_duration,
}
use v_spells_nand_use_case.Device.Rig.{Rig}
use v_spells_nand_use_case.Device.Deadline.{before_deadline}
use v_spells_nand_use_case.Device.Parser.{parser_reset}

-- `pin` and `value` are the arguments of the child's call, `rdi` and `rsi`
unfoldable pub handle_breakpoint_gpio_set : Host → ℕ → ℕ → Rig → Rig
handle_breakpoint_gpio_set h pin value r =
    if pin == pn_reset && value == 1
    then (let t = parser_reset r in record t { instant = h.usleep reset_duration t.instant })
    else r

-- The third argument is the child's local variable `retval`, which the handler may overwrite.
unfoldable pub handle_breakpoint_gpio_get : Host → ℕ → ℕ → Rig → Outcome (ℕ × Rig)
handle_breakpoint_gpio_get h pin retval r =
    if pin == pn_status
    then (do (busy, r) ← before_deadline h r; ok (if busy then device_busy else device_ready, r))
    else if pin == pn_reset
    then ok (0, r)
    else ok (retval, r)
