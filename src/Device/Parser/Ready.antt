-- ===== src/Device/Parser/Ready.antt =====
-- What the parser does with a message that reaches it in a state that expects it, with the deadline
-- passed: each result is given whole.
use v_spells_nand_use_case.Prelude.{
  ℕ, ◌+◌, ◌%◌, ◌^◌, ◌≡◌, refl, ap, sym, subst, arith, bit_or, false,
}
use v_spells_nand_use_case.Host.{Host}
use v_spells_nand_use_case.Clock.Laws.{IsHost, Returns, returns, Returns-eq, bind, time}
use v_spells_nand_use_case.Device.Constants.{
  c_read_execute, c_program_setup, c_program_execute, c_erase_execute, c_dummy, read_page_duration,
  write_page_duration, erase_block_duration,
}
use v_spells_nand_use_case.Device.Store.{
  cursor_byte_shift, store_clear_cache, increment_page, increment_block, set_cursor_byte,
  store_copy_page_to_cache, store_copy_page_from_cache, store_erase_block, store_get_cache_byte,
  increment_cursor,
}
use v_spells_nand_use_case.Device.IoRegs.Laws.{write_reg, IsDecodable, update_decodes}
use v_spells_nand_use_case.Device.Rig.{
  MachineState, read_providing_data, program_accepting_data, Rig,
}
use v_spells_nand_use_case.Device.Deadline.Laws.{
  ticked, IsReady, ready-before_deadline, set_deadline-Returns,
}
use v_spells_nand_use_case.Device.Parser.{
  enter, on_store, poke, dummy_word, command_of, address_of, take_address, execute_read,
  on_read_awaiting_execute, on_program_awaiting_byte_address, on_program_accepting_data,
  accept_byte, provide_byte, execute_program, execute_erase, on_read_providing_data,
  on_erase_awaiting_execute, dispatch, handle_watchpoint_ioregisters,
}

-- the outer `switch` at a known state
pub handle_at :
    {h : Host} {P : Rig → Type 0} (text : ℕ) (r : Rig) {m : MachineState}
    → r.machine_state ≡ m
    → Returns h P (dispatch m h text (r.ioregisters % 2 ^ 32) r)
    → Returns h P (handle_watchpoint_ioregisters h text r)
unfolding handle_watchpoint_ioregisters
handle_at {h} {P} text r e known =
    subst (λ k. Returns h P (dispatch k h text (r.ioregisters % 2 ^ 32) r)) (sym e) known

module _ {h : Host} (host : IsHost h) where
  -- the rig once a deadline has been set after the clock was read
  abbrev pub timed : ℕ → Rig → Rig
  timed duration r = record (ticked h (ticked h r)) {
    deadline = time host (h.resume r.instant) + duration;
  }

  pub take_address-Returns :
      (expected shift : ℕ) (next : MachineState) (peeked : ℕ) (r : Rig)
      → IsReady host r
      → command_of peeked ≡ expected
      → Returns h
          (λ t. t ≡ enter next (on_store (set_cursor_byte (address_of peeked) shift) (ticked h r)))
          (take_address h expected shift next peeked r)
  unfolding take_address
  take_address-Returns expected shift next peeked r ready c =
      bind (ready-before_deadline host r ready) λ (busy, t) (eb, et).
        Returns-eq (ground arith)
          (ap (λ u. enter next (on_store (set_cursor_byte (address_of peeked) shift) u)) et)

  pub execute_read-Returns :
      (r : Rig)
      → IsReady host r
      → Returns h
          (λ t.
            t
            ≡ poke dummy_word (
                enter read_providing_data
                  (on_store store_copy_page_to_cache (timed read_page_duration r))))
          (execute_read h (ticked h r))
  unfolding execute_read
  execute_read-Returns r ready =
      bind (set_deadline-Returns host read_page_duration (ticked h r) (omega arith)) λ t et.
        returns (
          ap
            (λ u. poke dummy_word (enter read_providing_data (on_store store_copy_page_to_cache u)))
            et)

  pub read_execute-Returns :
      (peeked : ℕ) (r : Rig)
      → IsReady host r
      → command_of peeked ≡ c_read_execute
      → Returns h
          (λ t.
            t
            ≡ poke dummy_word (
                enter read_providing_data
                  (on_store store_copy_page_to_cache (timed read_page_duration r))))
          (on_read_awaiting_execute h peeked r)
  unfolding on_read_awaiting_execute
  read_execute-Returns peeked r ready c =
      bind (ready-before_deadline host r ready)
        λ (busy, t) (eb, et). rw (eb, c, et) (execute_read-Returns r ready)

  pub last_address-Returns :
      (peeked : ℕ) (r : Rig)
      → IsReady host r
      → command_of peeked ≡ c_program_setup
      → Returns h
          (λ t.
            t
            ≡ poke dummy_word (
                enter program_accepting_data
                  (on_store (set_cursor_byte (address_of peeked) cursor_byte_shift) (ticked h r))))
          (on_program_awaiting_byte_address h peeked r)
  unfolding on_program_awaiting_byte_address
  last_address-Returns peeked r ready c =
      bind (ready-before_deadline host r ready) λ (busy, t) (eb, et). rw (eb, c, et) (returns refl)

  pub accept_byte-Returns :
      (peeked : ℕ) (r : Rig)
      → IsReady host r
      → command_of peeked ≡ c_dummy
      → Returns h (λ t. t ≡ accept_byte peeked (ticked h r)) (on_program_accepting_data h peeked r)
  unfolding on_program_accepting_data
  accept_byte-Returns peeked r ready c =
      bind (ready-before_deadline host r ready) λ (busy, t) (eb, et). rw (eb, c, et) (returns refl)

  pub program_execute-Returns :
      (peeked : ℕ) (r : Rig)
      → IsReady host r
      → command_of peeked ≡ c_program_execute
      → Returns h
          (λ t.
            t
            ≡ poke dummy_word (
                on_store increment_page (
                  on_store store_clear_cache
                    (on_store store_copy_page_from_cache (timed write_page_duration r)))))
          (on_program_accepting_data h peeked r)
  unfolding on_program_accepting_data execute_program
  program_execute-Returns peeked r ready c =
      bind (ready-before_deadline host r ready) λ (busy, t) (eb, et).
        rw (eb, c, et)
          (bind (set_deadline-Returns host write_page_duration (ticked h r) (omega arith))
            λ u eu. rw eu (returns refl))

  pub erase_execute-Returns :
      (peeked : ℕ) (r : Rig)
      → IsReady host r
      → command_of peeked ≡ c_erase_execute
      → Returns h
          (λ t.
            t
            ≡ on_store increment_block
                (poke dummy_word (on_store store_erase_block (timed erase_block_duration r))))
          (on_erase_awaiting_execute h peeked r)
  unfolding on_erase_awaiting_execute execute_erase
  erase_execute-Returns peeked r ready c =
      bind (ready-before_deadline host r ready) λ (busy, t) (eb, et).
        rw (eb, c, et)
          (bind (set_deadline-Returns host erase_block_duration (ticked h r) (omega arith))
            λ u eu. rw eu (returns refl))

  pub read_again-Returns :
      (text peeked : ℕ) (r : Rig)
      → IsReady host r
      → command_of peeked ≡ c_read_execute
      → Returns h
          (λ t.
            t
            ≡ poke dummy_word (
                enter read_providing_data
                  (on_store store_copy_page_to_cache (timed read_page_duration r))))
          (on_read_providing_data h text peeked r)
  unfolding on_read_providing_data
  read_again-Returns text peeked r ready c =
      bind (ready-before_deadline host r ready)
        λ (busy, t) (eb, et). rw (eb, c, et) (execute_read-Returns r ready)

  -- what a load leaves: the byte of the cache in the IO registers and in the CPU register of the load
  abbrev pub provided : Rig → Rig
  provided r =
      let v = bit_or dummy_word (store_get_cache_byte r.store) in
      on_store (increment_cursor false) (record (poke v r) { regs = write_reg h.load_reg v r.regs })

  pub provide_byte-Returns :
      (peeked : ℕ) (r : Rig)
      → IsReady host r
      → command_of peeked ≡ c_dummy
      → IsDecodable h
      → Returns h (λ t. t ≡ provided (ticked h r)) (on_read_providing_data h h.load_text peeked r)
  unfolding on_read_providing_data provide_byte
  provide_byte-Returns peeked r ready c decodable =
      bind (ready-before_deadline host r ready) λ (busy, t) (eb, et).
        rw
          (
            eb,
            c,
            et,
            update_decodes h.load_text (bit_or dummy_word (store_get_cache_byte r.store)) r.regs,
            decodable,
          )
          (returns refl)
