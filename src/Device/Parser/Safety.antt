-- ===== src/Device/Parser/Safety.antt =====
-- The parser keeps its store within bounds, whatever messages arrive.
use v_spells_nand_use_case.Prelude.{
  ℕ, ◌%◌, ◌^◌, ◌<◌, refl, arith, Bool, true, false, not, ◌||◌, ◌==◌, inl, inr, mask_byte_1,
  if◌then◌else◌,
}
use v_spells_nand_use_case.Outcome.{Outcome, ok, stop, Stop, ◌>>=◌}
use v_spells_nand_use_case.Host.{Host}
use v_spells_nand_use_case.Clock.{now}
use v_spells_nand_use_case.Device.Store.Bounds.{
  IsBounded, clear-IsBounded, clear_cache-IsBounded, increment_cursor-IsBounded,
  increment_page-IsBounded, increment_block-IsBounded, IsField, set_cursor_byte-IsBounded,
  page_to_cache-IsBounded, page_from_cache-IsBounded, set_cache_byte-IsBounded, erase-IsBounded,
}
use v_spells_nand_use_case.Device.IoRegs.{update_tracee_cpu_registers}
use v_spells_nand_use_case.Device.Rig.{
  MachineState, initial_state, bug, read_awaiting_block_address, read_awaiting_page_address,
  read_awaiting_byte_address, read_awaiting_execute, read_providing_data,
  program_awaiting_block_address, program_awaiting_page_address, program_awaiting_byte_address,
  program_accepting_data, erase_awaiting_block_address, erase_awaiting_execute, Rig,
}
use v_spells_nand_use_case.Device.Deadline.{before_deadline, set_deadline}
use v_spells_nand_use_case.Device.Parser.{
  command_of, address_of, clear_state, on_initial_state, take_address, execute_read, restart,
  provide_byte, on_read_awaiting_execute, on_read_providing_data, on_program_awaiting_byte_address,
  accept_byte, execute_program, on_program_accepting_data, execute_erase, on_erase_awaiting_execute,
  dispatch, on_read_awaiting_block_address, on_read_awaiting_page_address,
  on_read_awaiting_byte_address, on_program_awaiting_block_address,
  on_program_awaiting_page_address, on_erase_awaiting_block_address, handle_watchpoint_ioregisters,
}

-- what holds of the value, if the run ends in one
pub data IfEnds {A : Type 0} (P : A → Type 0) : Outcome A → Type 0 where
  ends : {a : A} → P a → IfEnds P (ok a)
  stops : {e : Stop} → IfEnds P (stop e)

pub and_then :
    {A B : Type 0} {P : A → Type 0} {Q : B → Type 0} {o : Outcome A} {f : A → Outcome B}
    → IfEnds P o
    → ((a : A) → P a → IfEnds Q (f a))
    → IfEnds Q (o >>= f)
and_then (ends {a} p) next = next a p
and_then stops next = stops

pub any : {A : Type 0} (o : Outcome A) → IfEnds (λ _. Unit {0}) o
any (ok a) = ends tt
any (stop e) = stops

abbrev pub IsSafe : Rig → Type 0
IsSafe r = IsBounded r.store

pub chosen : (c : Bool) (x y : Rig) → IsSafe x → IsSafe y → IsSafe (if c then x else y)
chosen true x y p q = p
chosen false x y p q = q

pub branch :
    {A : Type 0} {P : A → Type 0} {o o' : Outcome A} (c : Bool)
    → IfEnds P o
    → IfEnds P o'
    → IfEnds P (if c then o else o')
branch true p q = p
branch false p q = q

module _ (h : Host) where
  pub reads_deadline : (r : Rig) → IsSafe r → IfEnds (λ (b, t). IsSafe t) (before_deadline h r)
  unfolding before_deadline
  reads_deadline r b = and_then (any (now h r.instant)) λ (t, i) _. ends b

  sets_deadline : (duration : ℕ) (r : Rig) → IsSafe r → IfEnds IsSafe (set_deadline h duration r)
  unfolding set_deadline
  sets_deadline duration r b = and_then (any (now h r.instant)) λ (t, i) _. ends b

  clears : (r : Rig) → IsSafe r → IsSafe (clear_state r)
  unfolding clear_state
  clears r b = clear-IsBounded r.store b

  address_small : (peeked : ℕ) → address_of peeked < 256
  address_small peeked = omega (arith, mask_byte_1 peeked)

  initial-IsSafe :
      (command : ℕ) (r : Rig) → IsSafe r → IfEnds IsSafe (ok (on_initial_state command r))
  unfolding on_initial_state
  initial-IsSafe command r b =
      ends
        (chosen (command == 1) _ _ b (chosen (command == 3) _ _ b (chosen (command == 5) _ _ b b)))

  takes :
      (expected shift : ℕ) (next : MachineState) (peeked : ℕ) (r : Rig)
      → IsField shift
      → IsSafe r
      → IfEnds IsSafe (take_address h expected shift next peeked r)
  unfolding take_address
  takes expected shift next peeked r field b = and_then (reads_deadline r b) λ (busy, t) c.
      branch (busy || not (command_of peeked == expected)) (ends c) (
        ends (
          set_cursor_byte-IsBounded (address_of peeked) shift t.store (address_small peeked) field
            c))

  reads_page : (r : Rig) → IsSafe r → IfEnds IsSafe (execute_read h r)
  unfolding execute_read
  reads_page r b = and_then (sets_deadline 100 r b) λ t c. ends (page_to_cache-IsBounded t.store c)

  restarts : (command : ℕ) (r : Rig) → IsSafe r → IfEnds IsSafe (ok (restart command r))
  unfolding restart
  restarts command r b =
      let c = clears r b in
      ends
        (chosen (command == 1) _ _ c (chosen (command == 3) _ _ c (chosen (command == 5) _ _ c b)))

  provides : (text : ℕ) (r : Rig) → IsSafe r → IfEnds IsSafe (provide_byte text r)
  unfolding provide_byte
  provides text r b =
      and_then (any (update_tracee_cpu_registers text _ r.regs))
        λ regs _. ends (increment_cursor-IsBounded false r.store b)

  programs : (r : Rig) → IsSafe r → IfEnds IsSafe (execute_program h r)
  unfolding execute_program
  programs r b = and_then (sets_deadline 600 r b) λ t c.
      ends
        (increment_page-IsBounded _ (clear_cache-IsBounded _ (page_from_cache-IsBounded t.store c)))

  erases : (r : Rig) → IsSafe r → IfEnds IsSafe (execute_erase h r)
  unfolding execute_erase
  erases r b =
      and_then (sets_deadline 2000 r b)
        λ t c. ends (increment_block-IsBounded _ (erase-IsBounded t.store c))

  accepts : (peeked : ℕ) (r : Rig) → IsSafe r → IfEnds IsSafe (ok (accept_byte peeked r))
  unfolding accept_byte
  accepts peeked r b =
      ends (increment_cursor-IsBounded true _ (set_cache_byte-IsBounded _ r.store b))

  -- each of the states
  awaiting_execute :
      (peeked : ℕ) (r : Rig) → IsSafe r → IfEnds IsSafe (on_read_awaiting_execute h peeked r)
  unfolding on_read_awaiting_execute
  awaiting_execute peeked r b =
      and_then (reads_deadline r b)
        λ (busy, t) c. branch (busy || not (command_of peeked == 2)) (ends c) (reads_page t c)

  providing :
      (text peeked : ℕ) (r : Rig)
      → IsSafe r
      → IfEnds IsSafe (on_read_providing_data h text peeked r)
  unfolding on_read_providing_data
  providing text peeked r b = and_then (reads_deadline r b) λ (busy, t) c. branch busy (ends c) (
      branch (command_of peeked == 7) (provides text t c)
        (branch (command_of peeked == 2) (reads_page t c) (restarts (command_of peeked) t c)))

  last_address :
      (peeked : ℕ) (r : Rig)
      → IsSafe r
      → IfEnds IsSafe (on_program_awaiting_byte_address h peeked r)
  unfolding on_program_awaiting_byte_address
  last_address peeked r b = and_then (reads_deadline r b) λ (busy, t) c.
      branch (busy || not (command_of peeked == 3)) (ends c) (
        ends (
          set_cursor_byte-IsBounded (address_of peeked) 0 t.store (address_small peeked)
            (inr (inr refl)) c))

  accepting :
      (peeked : ℕ) (r : Rig) → IsSafe r → IfEnds IsSafe (on_program_accepting_data h peeked r)
  unfolding on_program_accepting_data
  accepting peeked r b = and_then (reads_deadline r b) λ (busy, t) c. branch busy (ends c) (
      branch (command_of peeked == 7) (accepts peeked t c)
        (branch (command_of peeked == 4) (programs t c) (restarts (command_of peeked) t c)))

  erasing : (peeked : ℕ) (r : Rig) → IsSafe r → IfEnds IsSafe (on_erase_awaiting_execute h peeked r)
  unfolding on_erase_awaiting_execute
  erasing peeked r b = and_then (reads_deadline r b) λ (busy, t) c.
      branch busy (ends c)
        (branch (command_of peeked == 6) (erases t c) (restarts (command_of peeked) t c))

  dispatches :
      (m : MachineState) (text peeked : ℕ) (r : Rig)
      → IsSafe r
      → IfEnds IsSafe (dispatch m h text peeked r)
  unfolding dispatch on_read_awaiting_block_address on_read_awaiting_page_address
      on_read_awaiting_byte_address on_program_awaiting_block_address
      on_program_awaiting_page_address on_erase_awaiting_block_address
  dispatches initial_state text peeked r b = initial-IsSafe (command_of peeked) r b
  dispatches read_awaiting_block_address text peeked r b = takes 1 16 _ peeked r (inl refl) b
  dispatches read_awaiting_page_address text peeked r b = takes 1 8 _ peeked r (inr (inl refl)) b
  dispatches read_awaiting_byte_address text peeked r b = takes 1 0 _ peeked r (inr (inr refl)) b
  dispatches read_awaiting_execute text peeked r b = awaiting_execute peeked r b
  dispatches read_providing_data text peeked r b = providing text peeked r b
  dispatches program_awaiting_block_address text peeked r b = takes 3 16 _ peeked r (inl refl) b
  dispatches program_awaiting_page_address text peeked r b = takes 3 8 _ peeked r (inr (inl refl)) b
  dispatches program_awaiting_byte_address text peeked r b = last_address peeked r b
  dispatches program_accepting_data text peeked r b = accepting peeked r b
  dispatches erase_awaiting_block_address text peeked r b = takes 5 16 _ peeked r (inl refl) b
  dispatches erase_awaiting_execute text peeked r b = erasing peeked r b
  dispatches bug text peeked r b = stops

  -- Whatever word stands in the IO registers, whatever text surrounds the child's instruction, and
  -- whether or not the deadline has passed: if the cursor lies inside the storage and the arrays hold
  -- bytes, that is so after the message as well, unless the emulator stops.
  pub handle-IsSafe :
      (text : ℕ) (r : Rig) → IsSafe r → IfEnds IsSafe (handle_watchpoint_ioregisters h text r)
  unfolding handle_watchpoint_ioregisters
  handle-IsSafe text r b = dispatches r.machine_state text (r.ioregisters % 2 ^ 32) r b
