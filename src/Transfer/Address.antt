-- ===== src/Transfer/Address.antt =====
-- The addresses that follow a setup command (`send_addresses` of the framework): the cursor becomes
-- the offset of the transfer.
use v_spells_nand_use_case.Prelude.{ℕ, ◌%◌, ◌^◌, ◌<◌, ◌≡◌, refl, ◌∙◌, arith, Bytes}
use v_spells_nand_use_case.Host.{Host}
use v_spells_nand_use_case.Clock.Laws.{IsHost, Returns, mono, time-resume}
use v_spells_nand_use_case.Device.Constants.{c_dummy, ioreg_address}
use v_spells_nand_use_case.Device.Store.{set_cursor_byte}
use v_spells_nand_use_case.Device.Store.Laws.{storage_size}
use v_spells_nand_use_case.Device.Rig.{
  MachineState, program_awaiting_byte_address, program_accepting_data, Rig,
}
use v_spells_nand_use_case.Device.Parser.{address_of, take_address, dispatch}
use v_spells_nand_use_case.Device.Parser.Messages.{set_byte, get_byte, command_lem, address_lem}
use v_spells_nand_use_case.Device.Parser.Ready.{
  handle_at, take_address-Returns, last_address-Returns,
}
use v_spells_nand_use_case.Driver.Registers.{nand_set_register}
use v_spells_nand_use_case.Transfer.Phase.{Phase, stored}

-- the state that awaits the page address, where there is one
module _ {h : Host} (host : IsHost h) where
  module _ {m : MachineState} {cmd cursor : ℕ} {d c : Bytes} (v : ℕ) (small : v < 256) (r : Rig)
      (p : Phase host m cmd cursor d c r) where
    -- the word that the store leaves, as the parser reads it
    word : ℕ
    word = set_byte r.ioregisters 1 (v % 256)

    word_address : address_of (word % 2 ^ 32) ≡ v
    unfolding word
    word_address = omega (arith, address_lem word)

    word_command : get_byte word 2 ≡ cmd
    unfolding word
    word_command = omega (arith, p.command)

    -- A state that takes an address sets its field of the cursor, and nothing else.
    pub address_step :
        (shift : ℕ) (next : MachineState) (cursor' : ℕ)
        → ((peeked : ℕ) (t : Rig)
            → dispatch m h h.store_text peeked t ≡ take_address h cmd shift next peeked t)
        → (set_cursor_byte v shift r.store).cursor ≡ cursor'
        → cursor' < storage_size
        → Returns h (Phase host next cmd cursor' d c) (nand_set_register h ioreg_address v r)
    unfolding nand_set_register word set_cursor_byte
    address_step shift next cursor' is moved fits = handle_at h.store_text (stored r word) p.state (
        rw is (
          mono
            (take_address-Returns host cmd shift next (word % 2 ^ 32) (stored r word) p.ready
              (command_lem word ∙ word_command))
            λ t et.
              rw (et, word_address)
                (record {
                  state = refl;
                  ready = omega (arith, p.ready, time-resume host r.instant);
                  command = word_command;
                  at = moved;
                  bounded = fits;
                  holds = p.holds;
                  cached = p.cached;
                })))

    -- The last address of a program also leaves `C_DUMMY` in the registers.
    pub last_program_address :
        (cursor' : ℕ)
        → m ≡ program_awaiting_byte_address
        → cmd ≡ 3
        → (set_cursor_byte v 0 r.store).cursor ≡ cursor'
        → cursor' < storage_size
        → Returns h
            (Phase host program_accepting_data c_dummy cursor' d c)
            (nand_set_register h ioreg_address v r)
    unfolding nand_set_register word set_cursor_byte dispatch
    last_program_address cursor' em ec moved fits =
        handle_at h.store_text (stored r word) (p.state ∙ em) (
          mono
            (last_address-Returns host (word % 2 ^ 32) (stored r word) p.ready
              (command_lem word ∙ word_command ∙ ec))
            λ t et.
              rw (et, word_address)
                (record {
                  state = refl;
                  ready = omega (arith, p.ready, time-resume host r.instant);
                  command = refl;
                  at = moved;
                  bounded = fits;
                  holds = p.holds;
                  cached = p.cached;
                }))
