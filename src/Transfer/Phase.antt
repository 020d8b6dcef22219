-- ===== src/Transfer/Phase.antt =====
-- Where a transfer stands, as the driver's side knows it, and what the driver's stores to the IO
-- registers then do: setup commands and addresses.
use v_spells_nand_use_case.Prelude.{
  ℕ, ◌%◌, ◌^◌, ◌<◌, ◌≡◌, refl, ◌∙◌, arith, ◌⊎◌, inl, inr, Bytes, Bool, false, ◌==◌, ◌||◌, sym,
  subst,
}
use v_spells_nand_use_case.Host.{Host}
use v_spells_nand_use_case.Clock.Laws.{IsHost, Returns, returns, bind, mono}
use v_spells_nand_use_case.Device.Constants.{
  c_read_setup, c_program_setup, c_erase_setup, ioreg_command,
}
use v_spells_nand_use_case.Device.Store.Laws.{storage_size}
use v_spells_nand_use_case.Device.Rig.{
  MachineState, initial_state, read_awaiting_block_address, read_providing_data,
  program_awaiting_block_address, program_accepting_data, erase_awaiting_block_address,
  erase_awaiting_execute, Rig,
}
use v_spells_nand_use_case.Device.Deadline.Laws.{ticked, IsReady, ready-before_deadline}
use v_spells_nand_use_case.Device.Parser.{
  enter, command_of, dispatch, on_initial_state, on_read_providing_data, on_program_accepting_data,
  on_erase_awaiting_execute, restart, clear_state, handle_watchpoint_ioregisters,
}
use v_spells_nand_use_case.Device.Parser.Messages.{set_byte, get_byte, command_lem, set_command}
use v_spells_nand_use_case.Device.Parser.Ready.{handle_at}
use v_spells_nand_use_case.Driver.Registers.{nand_set_register}

-- the three kinds of transfer
pub data Setup : Type 0 where
  reading programming erasing : Setup

abbrev pub setup_command : Setup → ℕ
setup_command reading = c_read_setup
setup_command programming = c_program_setup
setup_command erasing = c_erase_setup

abbrev pub awaiting_block : Setup → MachineState
awaiting_block reading = read_awaiting_block_address
awaiting_block programming = program_awaiting_block_address
awaiting_block erasing = erase_awaiting_block_address

pub setup_byte : (k : Setup) → setup_command k < 256
setup_byte reading = omega arith
setup_byte programming = omega arith
setup_byte erasing = omega arith

abbrev is_setup : ℕ → Bool
is_setup n = n == c_read_setup || n == c_program_setup || n == c_erase_setup

restart_setup :
    (k : Setup) (r : Rig) → restart (setup_command k) r ≡ enter (awaiting_block k) (clear_state r)
unfolding restart
restart_setup reading r = refl
restart_setup programming r = refl
restart_setup erasing r = refl

initial_setup :
    (k : Setup) (r : Rig) → on_initial_state (setup_command k) r ≡ enter (awaiting_block k) r
unfolding on_initial_state
initial_setup reading r = refl
initial_setup programming r = refl
initial_setup erasing r = refl

-- the parser is in its initial state with a clear cache, or between two messages of a transfer
abbrev pub IsBetween : Rig → Type 0
IsBetween r =
    ((r.machine_state ≡ initial_state) × ((j : ℕ) → j < 256 → r.store.cache j ≡ 0))
    ⊎ (r.machine_state ≡ read_providing_data)
    ⊎ (r.machine_state ≡ program_accepting_data)
    ⊎ (r.machine_state ≡ erase_awaiting_execute)

other_command : (k : Setup) (n : ℕ) → is_setup n ≡ false → (setup_command k == n) ≡ false
other_command reading n e = ground arith
other_command programming n e = ground arith
other_command erasing n e = ground arith

-- the rig with a word stored to the IO registers
abbrev pub stored : Rig → ℕ → Rig
stored r w = record r { ioregisters = w }

module _ {h : Host} (host : IsHost h) where
  -- a new transfer may begin, on storage that holds `d`
  pub record IsIdle (d : Bytes) (r : Rig) : Type 0 where
    pub between : IsBetween r
    pub ready : IsReady host r
    pub bounded : r.store.cursor < storage_size
    pub holds : (j : ℕ) → r.store.data_store j ≡ d j

  -- the parser's state, the last command, the cursor, the storage and the cache
  pub record Phase (m : MachineState) (cmd cursor : ℕ) (d c : Bytes) (r : Rig) : Type 0 where
    pub state : r.machine_state ≡ m
    pub ready : IsReady host r
    pub command : get_byte r.ioregisters 2 ≡ cmd
    pub at : r.store.cursor ≡ cursor
    pub bounded : cursor < storage_size
    pub holds : (j : ℕ) → r.store.data_store j ≡ d j
    pub cached : (j : ℕ) → j < 256 → r.store.cache j ≡ c j

  pub Phase-adjust :
      {m : MachineState} {cmd cursor cursor' : ℕ} {d d' c c' : Bytes} {r : Rig}
      → Phase m cmd cursor d c r
      → cursor ≡ cursor'
      → ((j : ℕ) → d j ≡ d' j)
      → ((j : ℕ) → j < 256 → c j ≡ c' j)
      → Phase m cmd cursor' d' c' r
  Phase-adjust p ec ed es = record {
    state = p.state;
    ready = p.ready;
    command = p.command;
    at = p.at ∙ ec;
    bounded = omega (arith, p.bounded);
    holds = λ j. p.holds j ∙ ed j;
    cached = λ j hj. p.cached j hj ∙ es j hj;
  }

  abbrev pub Begun : Setup → Bytes → Rig → Type 0
  Begun k d t = Phase (awaiting_block k) (setup_command k) t.store.cursor d (λ _. 0) t

  begin_clear :
      (k : Setup) (d : Bytes) (r : Rig)
      → IsIdle d r
      → get_byte r.ioregisters 2 ≡ setup_command k
      → Begun k d (enter (awaiting_block k) (clear_state (ticked h r)))
  unfolding clear_state
  begin_clear k d r idle c = record {
    state = refl;
    ready = omega arith;
    command = c;
    at = refl;
    bounded = omega arith;
    holds = idle.holds;
    cached = λ j hj. ground arith;
  }

  -- In the three data states a setup command is none of those that the state handles itself.
  read_restarts :
      (k : Setup) (text peeked : ℕ) (r : Rig)
      → IsReady host r
      → command_of peeked ≡ setup_command k
      → Returns h
          (λ t. t ≡ enter (awaiting_block k) (clear_state (ticked h r)))
          (on_read_providing_data h text peeked r)
  unfolding on_read_providing_data
  read_restarts k text peeked r ready c =
      bind (ready-before_deadline host r ready) λ (busy, t) (eb, et).
        rw (eb, c, et, other_command k 7 refl, other_command k 2 refl)
          (returns (restart_setup k (ticked h r)))

  program_restarts :
      (k : Setup) (peeked : ℕ) (r : Rig)
      → IsReady host r
      → command_of peeked ≡ setup_command k
      → Returns h
          (λ t. t ≡ enter (awaiting_block k) (clear_state (ticked h r)))
          (on_program_accepting_data h peeked r)
  unfolding on_program_accepting_data
  program_restarts k peeked r ready c =
      bind (ready-before_deadline host r ready) λ (busy, t) (eb, et).
        rw (eb, c, et, other_command k 7 refl, other_command k 4 refl)
          (returns (restart_setup k (ticked h r)))

  erase_restarts :
      (k : Setup) (peeked : ℕ) (r : Rig)
      → IsReady host r
      → command_of peeked ≡ setup_command k
      → Returns h
          (λ t. t ≡ enter (awaiting_block k) (clear_state (ticked h r)))
          (on_erase_awaiting_execute h peeked r)
  unfolding on_erase_awaiting_execute
  erase_restarts k peeked r ready c =
      bind (ready-before_deadline host r ready) λ (busy, t) (eb, et).
        rw (eb, c, et, other_command k 6 refl) (returns (restart_setup k (ticked h r)))

  module _ (k : Setup) (d : Bytes) (text w : ℕ) (r : Rig) (idle : IsIdle d r)
      (c : get_byte w 2 ≡ setup_command k) where
    e : command_of (w % 2 ^ 32) ≡ setup_command k
    e = command_lem w ∙ c

    begun :
        (t : Rig) → t ≡ enter (awaiting_block k) (clear_state (ticked h (stored r w))) → Begun k d t
    begun t et = subst (Begun k d) (sym et) (
        begin_clear k d (stored r w)
          (record {
            between = idle.between;
            ready = idle.ready;
            bounded = idle.bounded;
            holds = idle.holds;
          })
          c)

    -- In each of the four states the setup command begins the transfer.
    handle_setup :
        IsBetween r → Returns h (Begun k d) (handle_watchpoint_ioregisters h text (stored r w))
    unfolding dispatch
    handle_setup (inl (s, clear)) = handle_at text (stored r w) s (
        rw (e, initial_setup k (stored r w))
          (returns (record {
            state = refl;
            ready = idle.ready;
            command = c;
            at = refl;
            bounded = idle.bounded;
            holds = idle.holds;
            cached = clear;
          })))
    handle_setup (inr (inl s)) =
        handle_at text (stored r w) s
          (mono (read_restarts k text (w % 2 ^ 32) (stored r w) idle.ready e) begun)
    handle_setup (inr (inr (inl s))) =
        handle_at text (stored r w) s
          (mono (program_restarts k (w % 2 ^ 32) (stored r w) idle.ready e) begun)
    handle_setup (inr (inr (inr s))) =
        handle_at text (stored r w) s
          (mono (erase_restarts k (w % 2 ^ 32) (stored r w) idle.ready e) begun)

  -- On an idle device a driver's store of a setup command begins the transfer, if the clock can be read:
  -- the cache is clear, the storage is as it was, and the parser waits for the block address.
  pub setup_lem :
      (k : Setup) (d : Bytes) (r : Rig)
      → IsIdle d r
      → Returns h (Begun k d) (nand_set_register h ioreg_command (setup_command k) r)
  unfolding nand_set_register
  setup_lem k d r idle =
      let v = setup_command k % 256 in
      let small : v ≡ setup_command k = omega (arith, setup_byte k) in
      rw small (
        handle_setup k d h.store_text (set_byte r.ioregisters 2 (setup_command k)) r idle
          (set_command r.ioregisters (setup_command k) (setup_byte k)).0 idle.between)
