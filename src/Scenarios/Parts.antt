-- ===== src/Scenarios/Parts.antt =====
-- The device's parts, the drivers' functions and the test data, on concrete inputs.
use v_spells_nand_use_case.Prelude.{◌+◌, ◌*◌, ◌/◌, ◌≡◌, arith, List, ◌≢◌, [], ◌∷◌}
use v_spells_nand_use_case.Outcome.{ok}
use v_spells_nand_use_case.Clock.Laws.{Returns, time}
use v_spells_nand_use_case.Device.IoRegs.{update_tracee_cpu_registers}
use v_spells_nand_use_case.Device.IoRegs.Laws.{destination, updated, update_decodes}
use v_spells_nand_use_case.Device.Rig.{program_accepting_data, Rig}
use v_spells_nand_use_case.Driver.Interface.{success}
use v_spells_nand_use_case.Driver.Alpha.{poll_status, nand_wait, nand_read, wait_loop}
use v_spells_nand_use_case.Driver.Wait.{Waited, nand_wait-Waited}
use v_spells_nand_use_case.Device.Deadline.Laws.{IsReady}
use v_spells_nand_use_case.Device.Parser.{handle_watchpoint_ioregisters}
use v_spells_nand_use_case.Device.Parser.Safety.{IfEnds, IsSafe, handle-IsSafe}
use v_spells_nand_use_case.Device.Store.Bounds.{IsBounded}
use v_spells_nand_use_case.Device.Traps.{Wait, exited, stopped, device_init}
use v_spells_nand_use_case.Device.Traps.Safety.{device_init-IsSafe}
use v_spells_nand_use_case.Driver.Bugs.EraseOnly.{erase_sleep_loop-waits}
use v_spells_nand_use_case.Driver.Bugs.{erase_sleep_loop, endless_wait, short_read, overlong_read}
use v_spells_nand_use_case.Driver.Bugs.Laws.{
  endless_wait-Returns, short_read-nand_read, overlong_read-endless,
}
use v_spells_nand_use_case.Tester.Data.{data_compare}
use v_spells_nand_use_case.Tester.Data.Laws.{IsFirstDifference, data_compare-IsFirstDifference}
use v_spells_nand_use_case.Driver.Foxtrot.Modulo.{
  modulo_exec_op, Unsuccessful, modulo_exec_op-Unsuccessful,
}
use v_spells_nand_use_case.Device.Constants.{c_erase_execute}
use v_spells_nand_use_case.Scenarios.{
  test_host, test_host-IsHost, zeroes, counting, test_rig, eight_setups,
}

nand_wait-Waited_example :
    Returns test_host
      (Waited test_host-IsHost test_rig (time test_host-IsHost 5000 + 625))
      (nand_wait test_host 625 test_rig)
nand_wait-Waited_example = nand_wait-Waited test_host-IsHost 625 test_rig (omega arith)

update_decodes_example :
    update_tracee_cpu_registers 0x00b60f0000000000 7 test_rig.regs
    ≡ updated (destination 0x00b60f0000000000) 7 test_rig.regs
update_decodes_example = update_decodes 0x00b60f0000000000 7 test_rig.regs

abbrev accepting_rig : Rig
accepting_rig = record test_rig {
  ioregisters = 0x070000;
  machine_state = program_accepting_data;
  store = record { cursor = 512; data_store = zeroes; cache = counting };
}

endless_wait-Returns_example :
    Returns test_host
      (λ (code, t). (code ≡ success) × IsReady test_host-IsHost t)
      (endless_wait test_host
        (poll_status test_host)
        2000
        125
        (record test_rig { deadline = 1500 }))
endless_wait-Returns_example =
    endless_wait-Returns test_host-IsHost 2000 125 (record test_rig { deadline = 1500 })
      (omega arith) (omega arith)

short_read-nand_read_example :
    short_read test_host counting 0 35 test_rig
    ≡ nand_read test_host counting 0 (8 * (35 / 8)) test_rig
short_read-nand_read_example = short_read-nand_read test_host counting 0 35 test_rig

overlong_read-endless_example :
    overlong_read test_host 100 counting 0 35 test_rig ≢ ok (counting, test_rig)
overlong_read-endless_example =
    overlong_read-endless test_host 100 0 35 counting test_rig (counting, test_rig) (omega arith)

test_store-IsBounded : IsBounded accepting_rig.store
test_store-IsBounded = record {
  within = omega arith;
  data_bytes = λ j. omega arith;
  cache_bytes = λ j. omega arith;
}

handle-IsSafe_example : IfEnds IsSafe (handle_watchpoint_ioregisters test_host 0 accepting_rig)
handle-IsSafe_example = handle-IsSafe test_host 0 accepting_rig test_store-IsBounded

abbrev test_stops : List Wait
test_stops =
    stopped (record {
      rip = 5000;
      rdi = 0;
      rsi = 0;
      regs = test_rig.regs;
      text = 0;
      ioregisters = 0x030000;
      retval = 0;
    })
    ∷ exited
    ∷ []

device_init-IsSafe_example :
    IfEnds IsSafe
      (device_init (record { gpio_set = 1000; gpio_get = 2000 }) test_host test_stops test_rig)
device_init-IsSafe_example =
    device_init-IsSafe (record { gpio_set = 1000; gpio_get = 2000 }) test_host test_stops test_rig
      (λ j. omega arith) (λ j. omega arith)

data_compare-IsFirstDifference_example :
    IsFirstDifference counting zeroes 0 10 (data_compare counting zeroes 10)
data_compare-IsFirstDifference_example = data_compare-IsFirstDifference counting zeroes 10

modulo_exec_op-Unsuccessful_example :
    Unsuccessful (modulo_exec_op test_host 100 eight_setups counting test_rig)
modulo_exec_op-Unsuccessful_example =
    modulo_exec_op-Unsuccessful test_host 100 eight_setups counting test_rig (omega arith)

abbrev erasing_rig : Rig
erasing_rig = record test_rig { cur_cmd = c_erase_execute; deadline = 1500 }

erase_sleep_loop-waits_example :
    erase_sleep_loop test_host (poll_status test_host) 100 2000 erasing_rig
    ≡ wait_loop test_host (poll_status test_host) 100 2000 erasing_rig
erase_sleep_loop-waits_example = erase_sleep_loop-waits test_host 100 2000 erasing_rig
