-- ===== src/UnitTests/Emulator/Addresses.antt =====
-- The setup commands and addresses of the unit test of the emulator: the cursor becomes the place that they
-- name.
use v_spells_nand_use_case.Prelude.{ℕ, ◌+◌, ◌*◌, ◌%◌, ◌<◌, ◌≡◌, refl, ◌∙◌, arith, Bytes}
use v_spells_nand_use_case.Host.{Host}
use v_spells_nand_use_case.Clock.Laws.{IsHost, Returns, bind, mono}
use v_spells_nand_use_case.Device.Store.{set_cursor_byte}
use v_spells_nand_use_case.Device.Store.Laws.{
  storage_size, cursor-set_block, cursor-set_page, cursor-set_byte,
}
use v_spells_nand_use_case.Device.Rig.{
  MachineState, read_awaiting_page_address, read_awaiting_byte_address, read_awaiting_execute,
  program_awaiting_page_address, program_awaiting_byte_address, program_accepting_data,
  erase_awaiting_execute, Rig,
}
use v_spells_nand_use_case.Device.Parser.{
  take_address, dispatch, on_read_awaiting_block_address, on_read_awaiting_page_address,
  on_read_awaiting_byte_address, on_program_awaiting_block_address,
  on_program_awaiting_page_address, on_erase_awaiting_block_address,
}
use v_spells_nand_use_case.Transfer.Phase.{
  Setup, reading, programming, erasing, setup_command, setup_byte, setup_lem, IsIdle, Phase, Begun,
}
use v_spells_nand_use_case.Transfer.Address.{address_step, last_program_address}
use v_spells_nand_use_case.UnitTests.Emulator.{
  store_word, send_setup, send_block, message, command_word,
}
use v_spells_nand_use_case.UnitTests.Emulator.Words.{
  commanded, store_command, store_address, Phase-commanded,
}

module _ {h : Host} (host : IsHost h) where
  begins :
      (k : Setup) (d : Bytes) (r : Rig)
      → IsIdle host d r
      → Returns h (Begun host k d) (store_word h (command_word (setup_command k)) r)
  begins k d r idle = rw (store_command h 0 (omega arith) r (setup_command k) (setup_byte k)) (
      setup_lem host k d (commanded 0 r) (record {
        between = idle.between;
        ready = idle.ready;
        bounded = idle.bounded;
        holds = idle.holds;
      }))

  module _ {m : MachineState} {command cursor : ℕ} {d c : Bytes} (small : command < 256) (v : ℕ)
      (byte : v < 256) (r : Rig) (p : Phase host m command cursor d c r) where
    takes :
        (shift : ℕ) (next : MachineState) (cursor' : ℕ)
        → ((peeked : ℕ) (t : Rig)
            → dispatch m h h.store_text peeked t ≡ take_address h command shift next peeked t)
        → (set_cursor_byte v shift r.store).cursor ≡ cursor'
        → cursor' < storage_size
        → Returns h
            (Phase host next command cursor' d c)
            (store_word h (message command (v * 256)) r)
    takes shift next cursor' is moves fits = rw (store_address h command small r v byte) (
        address_step host v byte (commanded command r) (Phase-commanded host r small p) shift next
          cursor' is moves fits)

  module _ (b p y : ℕ) (hb : b < 256) (hp : p < 256) (hy : y < 256) (d : Bytes) (r : Rig)
      (idle : IsIdle host d r) where
    pub send_setup-programming :
        Returns h
          (Phase host program_accepting_data 7 (b * 65536 + p * 256 + y) d (λ _. 0))
          (send_setup h 3 (b * 256) (p * 256) (y * 256) r)
    unfolding send_setup dispatch on_program_awaiting_block_address on_program_awaiting_page_address
    send_setup-programming = bind (begins programming d r idle) λ r0 begun.
        bind
          (takes (omega arith) b hb r0 begun 16 program_awaiting_page_address
            (b * 65536 + r0.store.cursor % 65536) (λ k t. refl)
            (cursor-set_block b r0.store (omega arith) (omega (arith, begun.bounded)))
            (omega arith))
          λ r1 p1.
            bind
              (takes (omega arith) p hp r1 p1 8 program_awaiting_byte_address
                (b * 65536 + p * 256 + r0.store.cursor % 256) (λ k t. refl)
                (cursor-set_page p r1.store (omega arith) (omega (arith, p1.at))
                  ∙ omega (arith, p1.at))
                (omega arith))
              λ r2 p2. rw (store_address h 3 (omega arith) r2 y hy) (
                last_program_address host y hy (commanded 3 r2)
                  (Phase-commanded host r2 (omega arith) p2) (b * 65536 + p * 256 + y) refl refl
                  (cursor-set_byte y r2.store (omega arith) (omega (arith, p2.at))
                    ∙ omega (arith, p2.at))
                  (omega arith))

    pub send_setup-reading :
        Returns h
          (Phase host read_awaiting_execute 1 (b * 65536 + p * 256 + y) d (λ _. 0))
          (send_setup h 1 (b * 256) (p * 256) (y * 256) r)
    unfolding send_setup dispatch on_read_awaiting_block_address on_read_awaiting_page_address
        on_read_awaiting_byte_address
    send_setup-reading = bind (begins reading d r idle) λ r0 begun.
        bind
          (takes (omega arith) b hb r0 begun 16 read_awaiting_page_address
            (b * 65536 + r0.store.cursor % 65536) (λ k t. refl)
            (cursor-set_block b r0.store (omega arith) (omega (arith, begun.bounded)))
            (omega arith))
          λ r1 p1.
            bind
              (takes (omega arith) p hp r1 p1 8 read_awaiting_byte_address
                (b * 65536 + p * 256 + r0.store.cursor % 256) (λ k t. refl)
                (cursor-set_page p r1.store (omega arith) (omega (arith, p1.at))
                  ∙ omega (arith, p1.at))
                (omega arith))
              λ r2 p2.
                takes (omega arith) y hy r2 p2 0 read_awaiting_execute (b * 65536 + p * 256 + y)
                  (λ k t. refl)
                  (cursor-set_byte y r2.store (omega arith) (omega (arith, p2.at))
                    ∙ omega (arith, p2.at))
                  (omega arith)

  pub send_block-erasing :
      (b : ℕ) (d : Bytes) (r : Rig)
      → b < 256
      → IsIdle host d r
      → Returns h
          (λ t.
            (low : ℕ) × (low < 65536)
            × Phase host erase_awaiting_execute 5 (b * 65536 + low) d (λ _. 0) t)
          (send_block h (b * 256) r)
  unfolding send_block dispatch on_erase_awaiting_block_address
  send_block-erasing b d r hb idle = bind (begins erasing d r idle) λ r0 begun.
      mono
        (takes (omega arith) b hb r0 begun 16 erase_awaiting_execute
          (b * 65536 + r0.store.cursor % 65536) (λ k t. refl)
          (cursor-set_block b r0.store (omega arith) (omega (arith, begun.bounded))) (omega arith))
        λ t q. (r0.store.cursor % 65536, omega arith, q)
