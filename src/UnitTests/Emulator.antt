-- ===== src/UnitTests/Emulator.antt =====
-- The unit test of the emulator (device/test_device.c): its child stores whole words to the IO registers. An
-- array that `memset` filled stands for its value. The longest operation takes two sleeps, so three rounds are
-- the fuel of each wait.
pub mod Words
pub mod Addresses
pub mod Steps
pub mod Ranges
pub mod Erases
pub mod Pages
pub mod Blocks
pub mod Passes
pub mod AllPages
use v_spells_nand_use_case.Prelude.{ℕ, zero, suc, ◌*◌, ◌%◌, ◌^◌, bit_and, bit_or, true, false, ◌==◌}
use v_spells_nand_use_case.Outcome.{Outcome, ok, stop, assertion, out_of_fuel, ◌>>=◌}
use v_spells_nand_use_case.Host.{Host}
use v_spells_nand_use_case.Device.Constants.{
  c_read_setup, c_read_execute, c_program_setup, c_program_execute, c_erase_setup, c_erase_execute,
  c_dummy, pn_status, pn_reset, device_ready,
}
use v_spells_nand_use_case.Device.Gpio.{handle_breakpoint_gpio_set, handle_breakpoint_gpio_get}
use v_spells_nand_use_case.Device.IoRegs.{mask_data, command_shift}
use v_spells_nand_use_case.Device.IoRegs.Laws.{read_reg, write_reg}
use v_spells_nand_use_case.Device.Parser.{handle_watchpoint_ioregisters}
use v_spells_nand_use_case.Device.Rig.{Rig}
use v_spells_nand_use_case.Device.Store.{shift_left}

-- `ioregisters = word`
unfoldable pub store_word : Host → ℕ → Rig → Outcome Rig
store_word h word r = handle_watchpoint_ioregisters h h.store_text (record r { ioregisters = word })

-- a read of `ioregisters`
unfoldable pub load_word : Host → Rig → Outcome (ℕ × Rig)
load_word h r = do
  t ←
      handle_watchpoint_ioregisters h h.load_text
        (record r { regs = write_reg h.load_reg r.ioregisters r.regs })
  ok (read_reg h.load_reg t.regs, t)

unfoldable pub gpio_set : Host → ℕ → ℕ → Rig → Rig
unfolding handle_breakpoint_gpio_set
gpio_set h pin value r = handle_breakpoint_gpio_set h pin value r

unfoldable pub gpio_get : Host → ℕ → Rig → Outcome (ℕ × Rig)
unfolding handle_breakpoint_gpio_get
gpio_get h pin r = do (retval, r) ← handle_breakpoint_gpio_get h pin 0 r; ok (retval % 2 ^ 32, r)

abbrev pub busy_sleep_duration : ℕ
busy_sleep_duration = 1000

unfoldable pub poll_loop : Host → ℕ → Rig → Outcome Rig
poll_loop h zero r = stop out_of_fuel
poll_loop h (suc fuel) r = gpio_get h pn_status r >>= λ (status, r). elim (status == device_ready) [
  | true ↦ ok r
  | false ↦ poll_loop h fuel (record r { instant = h.usleep busy_sleep_duration r.instant })
]

unfoldable pub wait_for_device : Host → Rig → Outcome Rig
unfolding poll_loop
wait_for_device h r = poll_loop h 3 r

-- `command << COMMAND_SHIFT` and `command << COMMAND_SHIFT | field`
abbrev pub command_word : ℕ → ℕ
command_word command = shift_left command command_shift

abbrev pub message : ℕ → ℕ → ℕ
message command field = bit_or (command_word command) field

-- the setup command and the three addresses of a program or a read
unfoldable pub send_setup : Host → ℕ → ℕ → ℕ → ℕ → Rig → Outcome Rig
send_setup h command block page byte r = do
  r ← store_word h (command_word command) r
  r ← store_word h (message command block) r
  r ← store_word h (message command page) r
  store_word h (message command byte) r

-- the setup command and the address of an erase
unfoldable pub send_block : Host → ℕ → Rig → Outcome Rig
send_block h block r = do
  r ← store_word h (command_word c_erase_setup) r
  store_word h (message c_erase_setup block) r

-- `for (int i=0;i<n;i++) ioregisters = (C_DUMMY << COMMAND_SHIFT) | data[i]`
unfoldable pub send_data : Host → ℕ → ℕ → Rig → Outcome Rig
send_data h value zero r = ok r
send_data h value (suc n) r = store_word h (message c_dummy value) r >>= λ r. send_data h value n r

unfoldable pub execute : Host → ℕ → Rig → Outcome Rig
execute h command r = store_word h (command_word command) r >>= λ r. wait_for_device h r

-- a loop of `n` assertions on what is read
unfoldable pub confirm : Host → ℕ → ℕ → Rig → Outcome Rig
confirm h value zero r = ok r
confirm h value (suc n) r = load_word h r >>= λ (word, r). elim (bit_and word mask_data == value) [
  | true ↦ confirm h value n r
  | false ↦ stop assertion
]

-- The shapes that the tests share: a range of one page is programmed, is read, and is read and confirmed;
-- `n` blocks are erased.
unfoldable pub program_range : Host → ℕ → ℕ → ℕ → ℕ → ℕ → Rig → Outcome Rig
program_range h block page byte value n r = do
  r ← send_setup h c_program_setup block page byte r
  r ← send_data h value n r
  execute h c_program_execute r

unfoldable pub read_range : Host → ℕ → ℕ → ℕ → Rig → Outcome Rig
read_range h block page byte r = do
  r ← send_setup h c_read_setup block page byte r
  execute h c_read_execute r

unfoldable pub confirm_page : Host → ℕ → ℕ → ℕ → Rig → Outcome Rig
confirm_page h block page value r = read_range h block page 0 r >>= λ r. confirm h value 256 r

-- a page of data and the execute command; the execute command of a read and a page of assertions
unfoldable pub program_next : Host → ℕ → Rig → Outcome Rig
program_next h value r = send_data h value 256 r >>= λ r. execute h c_program_execute r

unfoldable pub confirm_next : Host → ℕ → Rig → Outcome Rig
confirm_next h value r = execute h c_read_execute r >>= λ r. confirm h value 256 r

unfoldable pub erase_rounds : Host → ℕ → Rig → Outcome Rig
erase_rounds h zero r = ok r
erase_rounds h (suc n) r = execute h c_erase_execute r >>= λ r. erase_rounds h n r

unfoldable pub erase_blocks : Host → ℕ → ℕ → Rig → Outcome Rig
erase_blocks h block n r = send_block h block r >>= λ r. erase_rounds h n r

unfoldable pub wr_page_test : Host → Rig → Outcome Rig
wr_page_test h r = do r ← program_range h 0 0 0 0xff 256 r; confirm_page h 0 0 0xff r

unfoldable pub erase_block_test : Host → Rig → Outcome Rig
erase_block_test h r = do r ← wr_page_test h r; r ← erase_blocks h 0 1 r; confirm_page h 0 0 0 r

unfoldable pub wr_less_than_page_test : Host → Rig → Outcome Rig
wr_less_than_page_test h r = do
  r ← program_range h 0 0 0x0a00 0xff 10 r
  r ← read_range h 0 0 0 r
  r ← confirm h 0 10 r
  r ← confirm h 0xff 10 r
  confirm h 0 10 r

-- what the tests that program two pages begin with
unfoldable pub program_two_pages : Host → ℕ → ℕ → Rig → Outcome Rig
program_two_pages h block page r = do
  r ← program_range h block page 0 0xaa 256 r
  program_next h 0xbb r

unfoldable pub write_two_pages_test : Host → Rig → Outcome Rig
write_two_pages_test h r = do
  r ← program_two_pages h 0 0 r
  r ← confirm_page h 0 0 0xaa r
  confirm_page h 0 0x0100 0xbb r

unfoldable pub write_last_two_pages_test : Host → Rig → Outcome Rig
write_last_two_pages_test h r = do
  r ← program_two_pages h 0xff00 0xff00 r
  r ← confirm_page h 0xff00 0xff00 0xaa r
  confirm_page h 0 0 0xbb r

unfoldable pub write_and_read_two_pages_test : Host → Rig → Outcome Rig
write_and_read_two_pages_test h r = do
  r ← erase_block_test h r
  r ← program_two_pages h 0 0 r
  r ← confirm_page h 0 0 0xaa r
  confirm_next h 0xbb r

-- what the three tests that erase blocks begin with: a page of 0xAA in one block, a page of 0xBB in another
unfoldable pub program_two_blocks : Host → ℕ → ℕ → Rig → Outcome Rig
program_two_blocks h first second r = do
  r ← program_range h first 0 0 0xaa 256 r
  r ← program_range h second 0 0 0xbb 256 r
  r ← confirm_page h first 0 0xaa r
  confirm_page h second 0 0xbb r

unfoldable pub erase_two_blocks_test : Host → Rig → Outcome Rig
erase_two_blocks_test h r = do
  r ← program_two_blocks h 0 0x0100 r
  r ← erase_blocks h 0 2 r
  r ← confirm_page h 0 0 0 r
  confirm_page h 0x0100 0 0 r

unfoldable pub erase_last_two_blocks_test : Host → Rig → Outcome Rig
erase_last_two_blocks_test h r = do
  r ← program_two_blocks h 0xff00 0 r
  r ← erase_blocks h 0xff00 2 r
  r ← confirm_page h 0xff00 0 0 r
  confirm_page h 0 0 0 r

-- The first read stands in front of the loop.
unfoldable pub overwrite_page_test : Host → Rig → Outcome Rig
overwrite_page_test h r = do
  r ← erase_block_test h r
  r ← send_setup h c_program_setup 0 0 0 r
  r ← send_data h 0xaa 128 r
  r ← send_data h 0xdd 256 r
  r ← execute h c_program_execute r
  r ← read_range h 0 0 0 r
  (_, r) ← load_word h r
  confirm h 0xdd 256 r

unfoldable pub reset_test : Host → Rig → Outcome Rig
reset_test h r = do
  r ← send_setup h c_program_setup 0 0 0 r
  r ← send_data h 0xcc 256 r
  erase_block_test h (gpio_set h pn_reset 1 r)

unfoldable pub set_status_pin_test : Host → Rig → Outcome Rig
set_status_pin_test h r = erase_block_test h (gpio_set h pn_status 1 r)

unfoldable pub get_reset_pin_test : Host → Rig → Outcome Rig
get_reset_pin_test h r =
    gpio_get h pn_reset r >>= λ (ret, r). elim (ret == 0) [ true ↦ ok r | false ↦ stop assertion ]

unfoldable pub erase_all_blocks_test : Host → Rig → Outcome Rig
erase_all_blocks_test h r = do
  r ← program_two_blocks h 0xff00 0 r
  r ← erase_blocks h 0 256 r
  r ← confirm_page h 0xff00 0 0 r
  confirm_page h 0 0 0 r

-- the loops of the test that `tester_main` leaves out, over the pages that are left of 256 blocks of 256 pages
unfoldable pub program_pages : Host → ℕ → ℕ → Rig → Outcome Rig
program_pages h value zero r = ok r
program_pages h value (suc pages) r = program_next h value r >>= λ r. program_pages h value pages r

unfoldable pub confirm_pages : Host → ℕ → ℕ → Rig → Outcome Rig
confirm_pages h value zero r = ok r
confirm_pages h value (suc pages) r = confirm_next h value r >>= λ r. confirm_pages h value pages r

-- One more execute command follows the loop.
unfoldable pub write_and_read_all_pages_test : Host → Rig → Outcome Rig
write_and_read_all_pages_test h r = do
  r ← send_setup h c_program_setup 0 0 0 r
  r ← program_pages h 0xee (256 * 256) r
  r ← execute h c_program_execute r
  r ← send_setup h c_read_setup 0 0 0 r
  confirm_pages h 0xee (256 * 256) r

-- the calls of the tests, in their order; the tracing of the child is the host's
unfoldable pub tester_main : Host → Rig → Outcome Rig
tester_main h r = do
  r ← wr_page_test h r
  r ← erase_block_test h r
  r ← wr_less_than_page_test h r
  r ← write_two_pages_test h r
  r ← write_last_two_pages_test h r
  r ← erase_two_blocks_test h r
  r ← erase_last_two_blocks_test h r
  r ← overwrite_page_test h r
  r ← write_and_read_two_pages_test h r
  r ← reset_test h r
  r ← set_status_pin_test h r
  r ← get_reset_pin_test h r
  erase_all_blocks_test h r
