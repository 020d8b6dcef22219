-- ===== src/Driver/Bugs.antt =====
-- The functions in which the drivers alpha_1 to alpha_8 (driver/alpha/) differ from alpha_0: each has an
-- intended bug, which its name tells. A wait that need not end takes its fuel as an argument.
pub mod Laws
pub mod Backward
pub mod Hasty
pub mod EraseOnly
pub mod Sleepless
use v_spells_nand_use_case.Prelude.{
  ℕ, zero, suc, ◌+◌, ◌/◌, ◌%◌, ◌^◌, Bytes, true, false, update, ltb, ◌==◌, if◌then◌else◌,
}
use v_spells_nand_use_case.Outcome.{Outcome, ok, stop, out_of_fuel, ◌>>=◌}
use v_spells_nand_use_case.Host.{Host}
use v_spells_nand_use_case.Clock.{timeus, now}
use v_spells_nand_use_case.Device.Constants.{ioreg_command, device_ready, c_erase_execute}
use v_spells_nand_use_case.Device.Rig.{Rig}
use v_spells_nand_use_case.Driver.Interface.{nand_poll_interval_us, Code, success, failure}
use v_spells_nand_use_case.Driver.Registers.{nand_set_register, load_data}
use v_spells_nand_use_case.Driver.Alpha.{Poll, sleep, final_poll}

-- alpha_1: the loop does not sleep between two polls
unfoldable pub sleepless_loop : Host → Poll → ℕ → ℕ → Rig → Outcome (Code × Rig)
unfolding final_poll
sleepless_loop h poll zero timeout r = stop out_of_fuel
sleepless_loop h poll (suc fuel) timeout r = poll r >>= λ (status, r).
    elim (status == device_ready) [
      | true ↦ ok (success, r)
      | false ↦ now h r.instant >>= λ (t, i). elim (ltb t timeout) [
        | true ↦ sleepless_loop h poll fuel timeout (record r { instant = i })
        | false ↦ final_poll poll (record r { instant = i })
      ]
    ]

unfoldable pub sleepless_wait : Host → Poll → ℕ → ℕ → Rig → Outcome (Code × Rig)
unfolding sleepless_loop
sleepless_wait h poll fuel interval_us r = now h r.instant >>= λ (t, i).
    sleepless_loop h poll fuel (timeus (t + interval_us)) (record r { instant = i })

-- alpha_2: the wait never times out; its argument is not used
unfoldable pub endless_wait : Host → Poll → ℕ → ℕ → Rig → Outcome (Code × Rig)
endless_wait h poll zero interval_us r = stop out_of_fuel
endless_wait h poll (suc fuel) interval_us r = poll r >>= λ (status, r).
    elim (status == device_ready) [
      | true ↦ ok (success, r)
      | false ↦ endless_wait h poll fuel interval_us (sleep h r)
    ]

-- alpha_3: the timeout is 25 microseconds after the clock's start
unfoldable pub hasty_loop : Host → Poll → ℕ → Rig → Outcome (Code × Rig)
hasty_loop h poll zero r = stop out_of_fuel
hasty_loop h poll (suc fuel) r = poll (sleep h r) >>= λ (status, r). elim (status == device_ready) [
  | true ↦ ok (success, r)
  | false ↦ now h r.instant >>= λ (t, i). elim (ltb t nand_poll_interval_us) [
    | true ↦ hasty_loop h poll fuel (record r { instant = i })
    | false ↦ ok (failure, record r { instant = i })
  ]
]

-- Each round sleeps longer than the timeout's time, so two rounds are enough.
unfoldable pub hasty_wait : Host → Poll → ℕ → Rig → Outcome (Code × Rig)
unfolding hasty_loop
hasty_wait h poll interval_us r = hasty_loop h poll 2 r

-- `for (int j = 0; j < 8; j++) *(buffer+at+j) = ...`, by the rounds that are left
unfoldable pub read_run : Host → Bytes → ℕ → ℕ → Rig → Outcome (Bytes × Rig)
read_run h buffer at zero r = ok (buffer, r)
read_run h buffer at (suc left) r =
    load_data h r >>= λ (v, r). read_run h (update buffer at v) (at + 1) left r

-- alpha_4: whole runs of eight bytes only
unfoldable pub read_eights : Host → Bytes → ℕ → ℕ → Rig → Outcome (Bytes × Rig)
unfolding read_run
read_eights h buffer at zero r = ok (buffer, r)
read_eights h buffer at (suc left) r =
    read_run h buffer at 8 r >>= λ (buffer, r). read_eights h buffer (at + 8) left r

unfoldable pub short_read : Host → Bytes → ℕ → ℕ → Rig → Outcome (Bytes × Rig)
unfolding read_eights
short_read h buffer at length r = read_eights h buffer at (length / 8) r

-- alpha_5: runs of eight bytes until the count `i` is the length. The count is taken to wrap at 2 ^ 32; it
-- is an `int`, whose overflow has no defined result.
unfoldable pub overlong_loop : Host → ℕ → Bytes → ℕ → ℕ → ℕ → Rig → Outcome (Bytes × Rig)
unfolding read_run
overlong_loop h zero buffer at i length r = stop out_of_fuel
overlong_loop h (suc fuel) buffer at i length r = elim (i == length) [
  | true ↦ ok (buffer, r)
  | false ↦ read_run h buffer (at + i) 8 r >>= λ (buffer, r).
      overlong_loop h fuel buffer at ((i + 8) % 2 ^ 32) length r
]

unfoldable pub overlong_read : Host → ℕ → Bytes → ℕ → ℕ → Rig → Outcome (Bytes × Rig)
unfolding overlong_loop
overlong_read h fuel buffer at length r = overlong_loop h fuel buffer at 0 length r

-- alpha_6: from the end of the buffer to its start
unfoldable pub backward_read : Host → Bytes → ℕ → ℕ → Rig → Outcome (Bytes × Rig)
backward_read h buffer at zero r = ok (buffer, r)
backward_read h buffer at (suc length) r =
    load_data h r >>= λ (v, r). backward_read h (update buffer (at + length) v) at length r

-- alpha_7 and alpha_8 note the last command
unfoldable pub noting_set_register : Host → ℕ → ℕ → Rig → Outcome Rig
noting_set_register h offset value r =
    nand_set_register h offset value
      (if offset == ioreg_command then record r { cur_cmd = value % 256 } else r)

-- alpha_7: the loop sleeps in an erase only
unfoldable pub erase_sleep_loop : Host → Poll → ℕ → ℕ → Rig → Outcome (Code × Rig)
unfolding final_poll
erase_sleep_loop h poll zero timeout r = stop out_of_fuel
erase_sleep_loop h poll (suc fuel) timeout r = poll r >>= λ (status, r).
    elim (status == device_ready) [
      | true ↦ ok (success, r)
      | false ↦ now h (if r.cur_cmd == c_erase_execute then sleep h r else r).instant >>= λ (t, i).
          elim (ltb t timeout) [
            | true ↦ erase_sleep_loop h poll fuel timeout (record r { instant = i })
            | false ↦ final_poll poll (record r { instant = i })
          ]
    ]

unfoldable pub erase_sleep_wait : Host → Poll → ℕ → ℕ → Rig → Outcome (Code × Rig)
unfolding erase_sleep_loop
erase_sleep_wait h poll fuel interval_us r = now h r.instant >>= λ (t, i).
    erase_sleep_loop h poll fuel (timeus (t + interval_us)) (record r { instant = i })

-- alpha_8: `while (status != DEVICE_READY)`, in an erase
unfoldable pub erase_poll_loop : Host → Poll → ℕ → ℕ → Rig → Outcome (Code × Rig)
erase_poll_loop h poll zero status r = stop out_of_fuel
erase_poll_loop h poll (suc fuel) status r = elim (status == device_ready) [
  | true ↦ ok (success, r)
  | false ↦ poll (sleep h r) >>= λ (status, r). erase_poll_loop h poll fuel status r
]

-- alpha_8: the wait never times out in an erase
unfoldable pub erase_endless_loop : Host → Poll → ℕ → ℕ → Rig → Outcome (Code × Rig)
unfolding final_poll erase_poll_loop
erase_endless_loop h poll zero timeout r = stop out_of_fuel
erase_endless_loop h poll (suc fuel) timeout r = now h r.instant >>= λ (t, i).
    elim (ltb t timeout) [
      | false ↦ final_poll poll (record r { instant = i })
      | true ↦ poll (record r { instant = i }) >>= λ (status, r).
          elim (r.cur_cmd == c_erase_execute) [
            | true ↦ erase_poll_loop h poll fuel status r
            | false ↦ elim (status == device_ready) [
              | true ↦ ok (success, r)
              | false ↦ erase_endless_loop h poll fuel timeout (sleep h r)
            ]
          ]
    ]

unfoldable pub erase_endless_wait : Host → Poll → ℕ → ℕ → Rig → Outcome (Code × Rig)
unfolding erase_endless_loop
erase_endless_wait h poll fuel interval_us r = now h r.instant >>= λ (t, i).
    erase_endless_loop h poll fuel (timeus (t + interval_us)) (record r { instant = i })
