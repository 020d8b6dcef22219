-- ===== src/Transfer/Addresses.antt =====
-- All addresses of a transfer, by `send_addresses` (framework/fw_jumptable.c) and the driver's stores.
use v_spells_nand_use_case.Prelude.{ℕ, ◌+◌, ◌*◌, ◌/◌, ◌%◌, refl, ◌∙◌, arith, Bytes}
use v_spells_nand_use_case.Host.{Host}
use v_spells_nand_use_case.Clock.Laws.{IsHost, Returns, bind}
use v_spells_nand_use_case.Device.Store.Laws.{
  storage_size, cursor-set_block, cursor-set_page, cursor-set_byte,
}
use v_spells_nand_use_case.Device.Rig.{
  read_awaiting_page_address, read_awaiting_byte_address, read_awaiting_execute,
  program_awaiting_page_address, program_awaiting_byte_address, program_accepting_data,
  erase_awaiting_execute, Rig,
}
use v_spells_nand_use_case.Device.Parser.{
  dispatch, on_read_awaiting_block_address, on_read_awaiting_page_address,
  on_read_awaiting_byte_address, on_program_awaiting_block_address,
  on_program_awaiting_page_address, on_erase_awaiting_block_address,
}
use v_spells_nand_use_case.Driver.Alpha.{table}
use v_spells_nand_use_case.Transfer.Phase.{reading, programming, erasing, Phase, Begun}
use v_spells_nand_use_case.Driver.Registers.{nand_set_register}
use v_spells_nand_use_case.Transfer.Address.{address_step, last_program_address}
use v_spells_nand_use_case.Framework.JumpTable.{send_addresses}

module _ {h : Host} (host : IsHost h) (d : Bytes) (offset : ℕ) (r : Rig) where
  abbrev blk : ℕ
  blk = offset / 65536 % 256

  abbrev pge : ℕ
  pge = offset / 256 % 256

  abbrev byt : ℕ
  byt = offset % 256 % 256

  -- After the setup command of a program, the three addresses set the cursor to the offset, modulo the
  -- storage size, and the parser accepts data, if the clock can be read.
  pub program_addresses :
      Begun host programming d r
      → Returns h
          (Phase host program_accepting_data 7 (offset % storage_size) d (λ _. 0))
          (send_addresses (table h) offset r)
  unfolding send_addresses dispatch on_program_awaiting_block_address
      on_program_awaiting_page_address
  program_addresses b =
      bind
        (address_step host blk (omega arith) r b 16 program_awaiting_page_address
          (blk * 65536 + r.store.cursor % 65536) (λ k t. refl)
          (cursor-set_block blk r.store (omega arith) (omega (arith, b.bounded))) (omega arith))
        λ r1 p1.
          bind
            (address_step host pge (omega arith) r1 p1 8 program_awaiting_byte_address
              (blk * 65536 + pge * 256 + r.store.cursor % 256) (λ k t. refl)
              (cursor-set_page pge r1.store (omega arith) (omega (arith, p1.at))
                ∙ omega (arith, p1.at))
              (omega arith))
            λ r2 p2.
              last_program_address host byt (omega arith) r2 p2 (offset % storage_size) refl refl
                (cursor-set_byte byt r2.store (omega arith) (omega (arith, p2.at))
                  ∙ omega (arith, p2.at))
                (omega arith)

  -- After the setup command of a read, the three addresses set the cursor to the offset, modulo the
  -- storage size, and the parser waits for the execute command, if the clock can be read.
  pub read_addresses :
      Begun host reading d r
      → Returns h
          (Phase host read_awaiting_execute 1 (offset % storage_size) d (λ _. 0))
          (send_addresses (table h) offset r)
  unfolding send_addresses dispatch on_read_awaiting_block_address on_read_awaiting_page_address
      on_read_awaiting_byte_address
  read_addresses b =
      bind
        (address_step host blk (omega arith) r b 16 read_awaiting_page_address
          (blk * 65536 + r.store.cursor % 65536) (λ k t. refl)
          (cursor-set_block blk r.store (omega arith) (omega (arith, b.bounded))) (omega arith))
        λ r1 p1.
          bind
            (address_step host pge (omega arith) r1 p1 8 read_awaiting_byte_address
              (blk * 65536 + pge * 256 + r.store.cursor % 256) (λ k t. refl)
              (cursor-set_page pge r1.store (omega arith) (omega (arith, p1.at))
                ∙ omega (arith, p1.at))
              (omega arith))
            λ r2 p2.
              address_step host byt (omega arith) r2 p2 0 read_awaiting_execute
                (offset % storage_size) (λ k t. refl)
                (cursor-set_byte byt r2.store (omega arith) (omega (arith, p2.at))
                  ∙ omega (arith, p2.at))
                (omega arith)

  -- After the setup command of an erase, the block address sets the block of the cursor and keeps its
  -- other fields, and the parser waits for the execute command, if the clock can be read.
  pub erase_address :
      Begun host erasing d r
      → Returns h
          (Phase host erase_awaiting_execute 5
            (offset / 65536 % 256 * 65536 + r.store.cursor % 65536)
            d
            (λ _. 0))
          (nand_set_register h 1 blk r)
  unfolding dispatch on_erase_awaiting_block_address
  erase_address b =
      address_step host blk (omega arith) r b 16 erase_awaiting_execute
        (blk * 65536 + r.store.cursor % 65536) (λ k t. refl)
        (cursor-set_block blk r.store (omega arith) (omega (arith, b.bounded))) (omega arith)
