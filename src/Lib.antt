-- ===== src/Lib.antt =====
-- The NAND test rig: a parent process emulates a NAND flash storage device, and traces a child process in
-- which a tester drives the framework, and the framework a device driver. A driver's access to the
-- IO registers or the pins traps the child, and the emulator handles the trap before the child goes on.
-- So one sequence of steps describes both processes, and a call of a driver here includes the handling of
-- its traps.
--
-- The parts:
--   Prelude   names of the libraries, Boolean tests, bit masks as arithmetic, arrays and loops.
--   Outcome   how a run ends: a value, or the reason for which a process stops. Outcome/Laws: chains of
--             calls.
--   Host      what is asked of the operating system and the compiler: a parameter.
--   Clock     clock/clock.c: `now`. Clock/Laws: what the clock's documentation promises (`IsHost`),
--             and `Returns`: a run returns a value with a property, or the clock could not be read.
--   Device    the emulator. Device/Constants: device/device_emu.h. Device/Store: device/de_store.c, the
--             cursor, the page cache and the storage. Device/Deadline: device/de_deadline.c.
--             Device/Parser: device/de_parser.c, the state machine over messages in the IO registers.
--             Device/IoRegs: device/de_ioregs.c, the disassembler that finds the CPU register of a
--             load. Device/Gpio: device/de_gpio.c. Device/Traps: device/de_device.c, the tracer's
--             loop. Device/Rig: the state that they share with the child.
--   Driver    the drivers. Driver/Interface: framework/framework.h and driver/driver.h.
--             Driver/Registers: the accesses that trap, with framework/fw_gpio.c. Driver/Alpha:
--             driver/alpha/alpha_0.c, the correct driver. Driver/Wait: its wait. Driver/Bugs:
--             driver/alpha/alpha_1.c to alpha_8.c, the functions with an intended bug; waits that
--             need not end take their fuel as an argument. Driver/Foxtrot:
--             driver/foxtrot/foxtrot_0.c, the correct interpreter of operations; Driver/Foxtrot/Modulo:
--             driver/foxtrot/foxtrot_2.c, whose loop takes its fuel as an argument, and
--             Driver/Foxtrot/Five: driver/foxtrot/foxtrot_1.c. Driver/Kilo: driver/kilo/kilo_0.c, which
--             adds its device to the device information block, and Driver/Kilo/Bugs: kilo_1.c to kilo_5.c.
--   Framework framework/framework.c; Framework/JumpTable: framework/fw_jumptable.c;
--             Framework/ExecOp: framework/fw_execop.c, the operations for a driver with an interpreter.
--             Framework/Dib: framework/fw_dib.c, the device information block and its verification;
--             Framework/Dib/Spec: the blocks that are well-formed, as chains of nodes.
--   Tester    Tester/Mirror: tester/st_mirror.c, the mirror of the storage against which the tester compares
--             the device, and its unit test. Tester/Data: tester/st_data.c, the test data.
--             Tester/Libc: random() and malloc(), and the tester's state. Tester/Stochastic:
--             tester/st_stochastic.c. Tester/Deterministic: tester/st_deterministic.c. Tester/Dib:
--             tester/st_dib.c.
--   Transfer  what framework, driver and emulator do together, step by step and for whole transfers.
--             Transfer/Correct: what the tester asks of a driver (`IsCorrect`), and the drivers that do it.
--   Main      main/main.c: the options, and the child process.
--   UnitTests UnitTests/Emulator: device/test_device.c, the unit test of the emulator. UnitTests/IoRegs:
--             device/test_ioregs.c and device/test_patterns.s, that of the CPU register update. UnitTests/Wait:
--             driver/test/test_wait.c, that of a driver's wait.
--   Scenarios concrete inputs.
--
-- A C array is a function of the index, `unsigned int` arithmetic has its wrap at 2 ^ 32 written out, and
-- times wrap at 2 ^ 64. Loops of transfers take fuel, one round for each byte, since each round
-- transfers at least a byte; a wait takes one round for each microsecond and two more, since each
-- round sleeps at least 25. A wait of the emulator's unit test takes three rounds: the longest operation
-- lasts for two of its sleeps. The theorems about whole transfers and tests show that the fuel does not run
-- out. The waits of alpha_2 and alpha_8, which hang, take their fuel as an argument: in the unit test of a wait it
-- stands for the rounds that the host gets through before the alarm of 20 seconds rings.
--
-- The nodes of the device information block lie in a memory with an address space for each type; a pointer
-- that is not null points to a node. The loops over them take as fuel one round more than the nodes that they
-- accept, and end before it does. A driver's static nodes have addresses that are parameters.
--
-- Not modelled: ptrace, wait, fork and signals (the list of a child's stops stands for them), output and
-- time statistics, and the values of random(), malloc(), getrusage(), sigaction() and alarm() (parameters; the
-- handler of the alarm is modelled). What test_wait.c computes in floating point is a parameter, too.
pub mod Prelude
pub mod Outcome
pub mod Host
pub mod Clock
pub mod Device
pub mod Driver
pub mod Framework
pub mod Transfer
pub mod Tester
pub mod Main
pub mod UnitTests
pub mod Scenarios
