-- ===== src/Device/Parser.antt =====
-- The message parser (device/de_parser.c): a state machine over the messages that the child leaves
-- in its IO registers. A trap hands the handler `text`, the program text in front of the child's
-- instruction pointer. Each case of the outer `switch` is a function; the enumeration leaves out
-- the values of `machine_state` that no assignment produces.
pub mod Messages
pub mod Ready
pub mod Safety
use v_spells_nand_use_case.Prelude.{
  ℕ, ◌%◌, ◌^◌, ◌*◌, bit_and, bit_or, Bool, true, false, not, ◌||◌, ◌==◌, if◌then◌else◌,
}
use v_spells_nand_use_case.Outcome.{Outcome, ok, stop, machine_bug, ◌>>=◌}
use v_spells_nand_use_case.Host.{Host}
use v_spells_nand_use_case.Device.Constants.{
  c_read_setup, c_read_execute, c_program_setup, c_program_execute, c_erase_setup, c_erase_execute,
  c_dummy, read_page_duration, write_page_duration, erase_block_duration,
}
use v_spells_nand_use_case.Device.Store.{
  Store, cursor_block_shift, cursor_page_shift, cursor_byte_shift, shift_left, shift_right,
  store_clear_cache, store_clear_cursor, store_init, increment_cursor, increment_page,
  increment_block, set_cursor_byte, store_copy_page_to_cache, store_copy_page_from_cache,
  store_get_cache_byte, store_set_cache_byte, store_erase_block,
}
use v_spells_nand_use_case.Device.IoRegs.{
  mask_command, mask_address, mask_data, command_shift, address_shift, update_tracee_cpu_registers,
}
use v_spells_nand_use_case.Device.Rig.{
  MachineState, initial_state, bug, read_awaiting_block_address, read_awaiting_page_address,
  read_awaiting_byte_address, read_awaiting_execute, read_providing_data,
  program_awaiting_block_address, program_awaiting_page_address, program_awaiting_byte_address,
  program_accepting_data, erase_awaiting_block_address, erase_awaiting_execute, Rig,
}
use v_spells_nand_use_case.Device.Deadline.{
  deadline_clear, deadline_init, before_deadline, set_deadline,
}

-- `machine_state = m`
abbrev pub enter : MachineState → Rig → Rig
enter m r = record r { machine_state = m }

-- an operation of the store
abbrev pub on_store : (Store → Store) → Rig → Rig
on_store f r = record r { store = f r.store }

-- `ptrace(PTRACE_POKEDATA, child_pid, ioregs, word)`
abbrev pub poke : ℕ → Rig → Rig
poke word r = record r { ioregisters = word }

abbrev pub dummy_word : ℕ
dummy_word = shift_left c_dummy command_shift

unfoldable pub clear_state : Rig → Rig
unfolding deadline_clear store_clear_cursor store_clear_cache
clear_state r = on_store store_clear_cache (on_store store_clear_cursor (deadline_clear r))

unfoldable pub parser_reset : Rig → Rig
unfolding clear_state
parser_reset r = enter initial_state (clear_state r)

unfoldable pub parser_init : Rig → Rig
unfolding deadline_init
parser_init r = on_store store_init (deadline_init (enter initial_state r))

-- the command and the address of a message
abbrev pub command_of : ℕ → ℕ
command_of peeked = shift_right (bit_and peeked mask_command) command_shift

abbrev pub address_of : ℕ → ℕ
address_of peeked = shift_right (bit_and peeked mask_address) address_shift

unfoldable pub on_initial_state : ℕ → Rig → Rig
on_initial_state command r =
    if command == c_read_setup
    then enter read_awaiting_block_address r
    else if command == c_program_setup
    then enter program_awaiting_block_address r
    else if command == c_erase_setup
    then enter erase_awaiting_block_address r
    else enter bug r

-- The shape of the seven states that await an address: the setup command they expect, the field of
-- the cursor that they set, and the state that follows.
unfoldable pub take_address : Host → ℕ → ℕ → MachineState → ℕ → Rig → Outcome Rig
take_address h expected shift next peeked r = do
  (busy, r) ← before_deadline h r
  if busy || not (command_of peeked == expected)
      then ok (enter bug r)
      else ok (enter next (on_store (set_cursor_byte (address_of peeked) shift) r))

unfoldable pub on_read_awaiting_block_address : Host → ℕ → Rig → Outcome Rig
unfolding take_address
on_read_awaiting_block_address h =
    take_address h c_read_setup cursor_block_shift read_awaiting_page_address

unfoldable pub on_read_awaiting_page_address : Host → ℕ → Rig → Outcome Rig
unfolding take_address
on_read_awaiting_page_address h =
    take_address h c_read_setup cursor_page_shift read_awaiting_byte_address

unfoldable pub on_read_awaiting_byte_address : Host → ℕ → Rig → Outcome Rig
unfolding take_address
on_read_awaiting_byte_address h =
    take_address h c_read_setup cursor_byte_shift read_awaiting_execute

-- `C_READ_EXECUTE` in the two states that accept it
unfoldable pub execute_read : Host → Rig → Outcome Rig
execute_read h r = do
  r ← set_deadline h read_page_duration r
  ok (poke dummy_word (enter read_providing_data (on_store store_copy_page_to_cache r)))

unfoldable pub on_read_awaiting_execute : Host → ℕ → Rig → Outcome Rig
unfolding execute_read
on_read_awaiting_execute h peeked r = do
  (busy, r) ← before_deadline h r
  if busy || not (command_of peeked == c_read_execute) then ok (enter bug r) else execute_read h r

-- The cases that the three data states share: a setup command clears the state and begins anew, and
-- any other is a bug.
unfoldable pub restart : ℕ → Rig → Rig
unfolding clear_state
restart command r =
    if command == c_read_setup
    then enter read_awaiting_block_address (clear_state r)
    else if command == c_program_setup
    then enter program_awaiting_block_address (clear_state r)
    else if command == c_erase_setup
    then enter erase_awaiting_block_address (clear_state r)
    else enter bug r

-- `C_DUMMY` while data is read: the child is made to believe that it has read the byte
unfoldable pub provide_byte : ℕ → Rig → Outcome Rig
provide_byte text r = do
  let return_value = bit_or dummy_word (store_get_cache_byte r.store)
  regs ← update_tracee_cpu_registers text return_value r.regs
  ok (on_store (increment_cursor false) (record (poke return_value r) { regs = regs }))

unfoldable pub on_read_providing_data : Host → ℕ → ℕ → Rig → Outcome Rig
unfolding execute_read restart provide_byte
on_read_providing_data h text peeked r = do
  (busy, r) ← before_deadline h r
  let command = command_of peeked
  if busy
      then ok (enter bug r)
      else if command == c_dummy
      then provide_byte text r
      else if command == c_read_execute
      then execute_read h r
      else ok (restart command r)

unfoldable pub on_program_awaiting_block_address : Host → ℕ → Rig → Outcome Rig
unfolding take_address
on_program_awaiting_block_address h =
    take_address h c_program_setup cursor_block_shift program_awaiting_page_address

unfoldable pub on_program_awaiting_page_address : Host → ℕ → Rig → Outcome Rig
unfolding take_address
on_program_awaiting_page_address h =
    take_address h c_program_setup cursor_page_shift program_awaiting_byte_address

-- The last address also leaves `C_DUMMY` in the IO registers.
unfoldable pub on_program_awaiting_byte_address : Host → ℕ → Rig → Outcome Rig
on_program_awaiting_byte_address h peeked r = do
  (busy, r) ← before_deadline h r
  if busy || not (command_of peeked == c_program_setup)
      then ok (enter bug r)
      else ok (
          poke dummy_word (
            enter program_accepting_data
              (on_store (set_cursor_byte (address_of peeked) cursor_byte_shift) r)))

unfoldable pub accept_byte : ℕ → Rig → Rig
accept_byte peeked r =
    on_store (increment_cursor true) (on_store (store_set_cache_byte (bit_and peeked mask_data)) r)

unfoldable pub execute_program : Host → Rig → Outcome Rig
execute_program h r = do
  r ← set_deadline h write_page_duration r
  let r = on_store store_copy_page_from_cache r
  let r = on_store store_clear_cache r
  let r = on_store increment_page r
  ok (poke dummy_word r)

unfoldable pub on_program_accepting_data : Host → ℕ → Rig → Outcome Rig
unfolding accept_byte execute_program restart
on_program_accepting_data h peeked r = do
  (busy, r) ← before_deadline h r
  let command = command_of peeked
  if busy
      then ok (enter bug r)
      else if command == c_dummy
      then ok (accept_byte peeked r)
      else if command == c_program_execute
      then execute_program h r
      else ok (restart command r)

unfoldable pub on_erase_awaiting_block_address : Host → ℕ → Rig → Outcome Rig
unfolding take_address
on_erase_awaiting_block_address h =
    take_address h c_erase_setup cursor_block_shift erase_awaiting_execute

unfoldable pub execute_erase : Host → Rig → Outcome Rig
execute_erase h r = do
  r ← set_deadline h erase_block_duration r
  ok (on_store increment_block (poke dummy_word (on_store store_erase_block r)))

unfoldable pub on_erase_awaiting_execute : Host → ℕ → Rig → Outcome Rig
unfolding execute_erase restart
on_erase_awaiting_execute h peeked r = do
  (busy, r) ← before_deadline h r
  let command = command_of peeked
  if busy
      then ok (enter bug r)
      else if command == c_erase_execute
      then execute_erase h r
      else ok (restart command r)

-- the outer `switch`
unfoldable pub dispatch : MachineState → Host → ℕ → ℕ → Rig → Outcome Rig
dispatch initial_state h text peeked r = ok (on_initial_state (command_of peeked) r)
dispatch read_awaiting_block_address h text peeked r = on_read_awaiting_block_address h peeked r
dispatch read_awaiting_page_address h text peeked r = on_read_awaiting_page_address h peeked r
dispatch read_awaiting_byte_address h text peeked r = on_read_awaiting_byte_address h peeked r
dispatch read_awaiting_execute h text peeked r = on_read_awaiting_execute h peeked r
dispatch read_providing_data h text peeked r = on_read_providing_data h text peeked r
dispatch program_awaiting_block_address h text peeked r =
    on_program_awaiting_block_address h peeked r
dispatch program_awaiting_page_address h text peeked r = on_program_awaiting_page_address h peeked r
dispatch program_awaiting_byte_address h text peeked r = on_program_awaiting_byte_address h peeked r
dispatch program_accepting_data h text peeked r = on_program_accepting_data h peeked r
dispatch erase_awaiting_block_address h text peeked r = on_erase_awaiting_block_address h peeked r
dispatch erase_awaiting_execute h text peeked r = on_erase_awaiting_execute h peeked r
dispatch bug h text peeked r = stop machine_bug

-- `peeked` is the low half of the IO register word
unfoldable pub handle_watchpoint_ioregisters : Host → ℕ → Rig → Outcome Rig
unfolding dispatch
handle_watchpoint_ioregisters h text r = dispatch r.machine_state h text (r.ioregisters % 2 ^ 32) r
