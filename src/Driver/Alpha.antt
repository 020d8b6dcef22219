-- ===== src/Driver/Alpha.antt =====
-- The drivers with a jump table (driver/alpha/). alpha_0, modelled here, is the correct one. Each of the
-- others replaces one function by a version with an intended bug (Driver/Bugs.antt).
use v_spells_nand_use_case.Prelude.{
  ℕ, zero, suc, ◌+◌, Bytes, true, false, update, ltb, ◌==◌, if◌then◌else◌,
}
use v_spells_nand_use_case.Outcome.{Outcome, ok, stop, out_of_fuel, ◌>>=◌}
use v_spells_nand_use_case.Host.{Host}
use v_spells_nand_use_case.Clock.{timeus, now}
use v_spells_nand_use_case.Device.Constants.{ioreg_data, pn_status, device_ready}
use v_spells_nand_use_case.Device.Rig.{Rig}
use v_spells_nand_use_case.Driver.Interface.{
  nand_poll_interval_us, Code, success, failure, JumpTable, NandDriver, nand_jump_table,
}
use v_spells_nand_use_case.Driver.Registers.{nand_set_register, load_data, gpio_get}

abbrev pub sleep : Host → Rig → Rig
sleep h r = record r { instant = h.usleep nand_poll_interval_us r.instant }

-- `gpio_get(PN_STATUS)`, for the `gpio_get` that a driver is linked with
abbrev pub Poll : Type 0
Poll = Rig → Outcome (ℕ × Rig)

abbrev pub poll_status : Host → Poll
poll_status h = gpio_get h pn_status

-- `(gpio_get(PN_STATUS) == DEVICE_READY) ? 0 : -1`
unfoldable pub final_poll : Poll → Rig → Outcome (Code × Rig)
final_poll poll r = do
  (status, r) ← poll r
  ok (if status == device_ready then success else failure, r)

-- `do { ... } while (now() < timeout)`, with fuel
unfoldable pub wait_loop : Host → Poll → ℕ → ℕ → Rig → Outcome (Code × Rig)
unfolding final_poll
wait_loop h poll zero timeout r = stop out_of_fuel
wait_loop h poll (suc fuel) timeout r = poll r >>= λ (status, r). elim (status == device_ready) [
  | true ↦ ok (success, r)
  | false ↦ now h (h.usleep nand_poll_interval_us r.instant) >>= λ (t, i). elim (ltb t timeout) [
    | true ↦ wait_loop h poll fuel timeout (record r { instant = i })
    | false ↦ final_poll poll (record r { instant = i })
  ]
]

-- Every round but the last sleeps, so one round for each microsecond is more than enough.
unfoldable pub linked_wait : Host → Poll → ℕ → Rig → Outcome (Code × Rig)
unfolding wait_loop
linked_wait h poll interval_us r = now h r.instant >>= λ (t, i).
    wait_loop h poll (interval_us + 2) (timeus (t + interval_us)) (record r { instant = i })

-- the wait of a driver that is linked with the framework
unfoldable pub nand_wait : Host → ℕ → Rig → Outcome (Code × Rig)
unfolding linked_wait
nand_wait h = linked_wait h (poll_status h)

-- `while (length--) *buffer++ = ...`
unfoldable pub nand_read : Host → Bytes → ℕ → ℕ → Rig → Outcome (Bytes × Rig)
nand_read h buffer at zero r = ok (buffer, r)
nand_read h buffer at (suc length) r =
    load_data h r >>= λ (v, r). nand_read h (update buffer at v) (at + 1) length r

unfoldable pub nand_program : Host → Bytes → ℕ → ℕ → Rig → Outcome Rig
nand_program h buffer at zero r = ok r
nand_program h buffer at (suc length) r =
    nand_set_register h ioreg_data (buffer at) r >>= λ r. nand_program h buffer (at + 1) length r

-- `get_driver`
abbrev pub table : Host → JumpTable
table h = record {
  set_register = nand_set_register h;
  read_buffer = nand_read h;
  write_buffer = nand_program h;
  wait_ready = nand_wait h;
}

abbrev pub get_driver : Host → NandDriver
get_driver h = nand_jump_table (table h)
