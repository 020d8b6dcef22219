-- ===== src/UnitTests/Wait.antt =====
-- The unit test of a driver's wait (driver/test/test_wait.c): the driver is linked with a `gpio_get` that finds
-- the device busy whenever it is asked, and with no emulator, so a store to the IO registers does not trap. An
-- alarm ends a wait which hangs. The fuel of a wait with no bound of its own stands for the rounds of its loop that
-- the host gets through before the alarm rings.
pub mod Verdicts
pub mod Hangs
use v_spells_nand_use_case.Prelude.{
  ℕ, ◌+◌, ◌-◌, ◌*◌, ◌/◌, ◌%◌, ◌^◌, Bool, true, false, ◌&&◌, ◌==◌, leb, Option, none, some,
  if◌then◌else◌,
}
use v_spells_nand_use_case.Outcome.{Outcome, Stop, ok, stop, quit, out_of_fuel, alarmed, ◌>>=◌}
use v_spells_nand_use_case.Host.{Host}
use v_spells_nand_use_case.Clock.{now}
use v_spells_nand_use_case.Device.Constants.{
  ioreg_command, device_busy, c_read_execute, c_program_execute, c_erase_execute,
}
use v_spells_nand_use_case.Device.Parser.Messages.{set_byte}
use v_spells_nand_use_case.Device.Rig.{Rig}
use v_spells_nand_use_case.Driver.Alpha.{Poll}
use v_spells_nand_use_case.Driver.Interface.{Code, success, failure}

-- `struct timeval` and the two times of `struct rusage`
pub record Timeval : Type 0 where
  pub tv_sec : ℕ
  pub tv_usec : ℕ

pub record Rusage : Type 0 where
  pub ru_utime : Timeval
  pub ru_stime : Timeval

-- What the test asks of the host besides its clock, and what it computes in floating point.
pub record Meter : Type 0 where
  -- `sigaction(SIGALRM, &sa, NULL)` in a host's state, `true` for the result zero
  pub sigaction : ℕ → Bool
  -- the alarm that `alarm(seconds)` set in one state of the host has rung by another
  pub alarm : ℕ → ℕ → ℕ → Bool
  -- `getrusage(RUSAGE_SELF, &ru)` in a host's state, `none` for a nonzero result
  pub getrusage : ℕ → Option Rusage
  -- `1.0 - ((double)cpu_elapsed / (double)time_elapsed) > SLEEP_BAR`
  pub above_sleep_bar : ℕ → ℕ → Bool

abbrev pub timeout_us : ℕ
timeout_us = 10 * 1000000

abbrev pub metatimeout_s : ℕ
metatimeout_s = 20

-- `gpio_get`, at any pin
unfoldable pub always_busy : Poll
always_busy r = ok (device_busy, r)

-- The functions of a driver that the test calls. `set_register` only stores.
pub record LinkedWait : Type 0 where
  pub set_register : ℕ → ℕ → Rig → Rig
  pub wait_ready : ℕ → Rig → Outcome (Code × Rig)

unfoldable pub rusage_to_us : Rusage → ℕ
rusage_to_us u =
    (u.ru_utime.tv_sec * 1000000
      + u.ru_utime.tv_usec
      + u.ru_stime.tv_sec * 1000000
      + u.ru_stime.tv_usec)
    % 2 ^ 64

-- the difference of two times
abbrev pub elapsed_us : ℕ → ℕ → ℕ
elapsed_us start end = (end + 2 ^ 64 - start) % 2 ^ 64

pub record Verdict : Type 0 where
  pub timeout_pass : Bool
  pub wait_pass : Bool
  pub sleep_pass : Bool

-- the verdict on a wait, from what it returned, its times and its uses of the CPU
unfoldable pub judge : Meter → Code → ℕ → ℕ → Rusage → Rusage → Verdict
unfolding rusage_to_us
judge meter ret_val time_start time_end ru_start ru_end =
    let time_elapsed = elapsed_us time_start time_end in
    record {
      timeout_pass = elim ret_val [ success ↦ false | failure ↦ true ];
      wait_pass = leb timeout_us time_elapsed;
      sleep_pass =
          meter.above_sleep_bar (elapsed_us (rusage_to_us ru_start) (rusage_to_us ru_end))
            time_elapsed;
    }

-- The handler of the alarm, which finds the wait still in its loop. A wait that has stopped hears no alarm.
abbrev pub handle_metatimeout : Stop → Stop
handle_metatimeout out_of_fuel = alarmed
handle_metatimeout e = e

abbrev pub until_alarm {ℓ} : {A : Type ℓ} → Outcome A → Outcome A
until_alarm (ok a) = ok a
until_alarm (stop e) = stop (handle_metatimeout e)

-- `none` where the second use of the CPU cannot be read, which fails the test. An alarm that has rung by then has
-- ended the process.
unfoldable pub test_wait : Meter → Host → LinkedWait → ℕ → Rig → Outcome (Option Verdict × Rig)
unfolding judge
test_wait meter h driver command r0 =
    let r = driver.set_register ioreg_command command r0 in
    elim (meter.sigaction r.instant) [
      | false ↦ stop quit
      | true ↦ elim (meter.getrusage r.instant) [
        | none ↦ stop quit
        | some ru_start ↦ now h r.instant >>= λ (time_start, i).
            until_alarm (driver.wait_ready timeout_us (record r { instant = i }))
            >>= λ (ret_val, t). now h t.instant >>= λ (time_end, j).
                elim (meter.alarm metatimeout_s r.instant j) [
                  | true ↦ stop alarmed
                  | false ↦ ok (
                    elim (meter.getrusage j) [
                      | none ↦ none
                      | some ru_end ↦ some (judge meter ret_val time_start time_end ru_start ru_end)
                    ],
                    record t { instant = j },
                  )
                ]
      ]
    ]

abbrev pub all_three : Option Verdict → Bool
all_three none = false
all_three (some v) = v.timeout_pass && v.wait_pass && v.sleep_pass

-- `main`: all three are run, whatever the first two find
unfoldable pub test_all : Meter → Host → LinkedWait → Rig → Outcome (Code × Rig)
unfolding test_wait
test_all meter h driver r = do
  (reading, r) ← test_wait meter h driver c_read_execute r
  (writing, r) ← test_wait meter h driver c_program_execute r
  (erasing, r) ← test_wait meter h driver c_erase_execute r
  ok ((if all_three reading && all_three writing && all_three erasing then success else failure), r)

-- `nand_set_register` of the drivers that do not note the command, and of alpha_7 and alpha_8, which do
abbrev pub plain_set_register : ℕ → ℕ → Rig → Rig
plain_set_register offset value r = record r {
  ioregisters = set_byte r.ioregisters offset (value % 256);
}

abbrev pub linked_noting_set_register : ℕ → ℕ → Rig → Rig
linked_noting_set_register offset value r =
    plain_set_register offset value
      (if offset == ioreg_command then record r { cur_cmd = value % 256 } else r)

-- a driver that does not note the command
abbrev pub plain : (ℕ → Rig → Outcome (Code × Rig)) → LinkedWait
plain wait_ready = record { set_register = plain_set_register; wait_ready = wait_ready }

abbrev pub noting : (ℕ → Rig → Outcome (Code × Rig)) → LinkedWait
noting wait_ready = record { set_register = linked_noting_set_register; wait_ready = wait_ready }
