-- ===== src/UnitTests/Emulator/Blocks.antt =====
-- The tests of the emulator that erase blocks, overwrite a page, and use the pins pass.
use v_spells_nand_use_case.Prelude.{ℕ, ◌+◌, ◌*◌, ◌/◌, ◌≤◌, ◌<◌, ◌≡◌, ◌≢◌, refl, arith, Bytes}
use v_spells_nand_use_case.Outcome.{◌>>=◌}
use v_spells_nand_use_case.Host.{Host}
use v_spells_nand_use_case.Clock.Laws.{IsHost, Returns, returns, bind, mono}
use v_spells_nand_use_case.Device.Gpio.{handle_breakpoint_gpio_get, handle_breakpoint_gpio_set}
use v_spells_nand_use_case.Device.IoRegs.Laws.{IsDecodable}
use v_spells_nand_use_case.Device.Rig.{Rig}
use v_spells_nand_use_case.Device.Store.Laws.{storage_size}
use v_spells_nand_use_case.Transfer.Erase.{erased}
use v_spells_nand_use_case.Transfer.Read.{page_bytes}
use v_spells_nand_use_case.UnitTests.Emulator.{
  gpio_set, gpio_get, confirm, confirm_page, erase_blocks, load_word, read_range,
  program_two_blocks, erase_two_blocks_test, erase_last_two_blocks_test, erase_all_blocks_test,
  overwrite_page_test, write_and_read_two_pages_test, reset_test, set_status_pin_test,
  get_reset_pin_test,
}
use v_spells_nand_use_case.UnitTests.Emulator.Addresses.{send_setup-programming}
use v_spells_nand_use_case.UnitTests.Emulator.Steps.{
  page_of, ring, send_data-Accepting, load_word-Providing,
}
use v_spells_nand_use_case.UnitTests.Emulator.Ranges.{
  Rests, RestsAt-Rests, Reads-Rests, Reads-CanRead, programmed, program_page, read_range-Reads,
  confirm-Reads, confirm_next-Reads, confirm_page-Reads,
}
use v_spells_nand_use_case.UnitTests.Emulator.Erases.{erase_blocks-Rests, gpio_set-reset}
use v_spells_nand_use_case.UnitTests.Emulator.Pages.{
  confirms, erased_page, erase_block_test-Rests, program_two_pages-Rests, two_pages,
}

-- the storage with a page of one value in a block and a page of another in another block
abbrev pub two_blocks : Bytes → ℕ → ℕ → Bytes
two_blocks d first second = page_of (page_of d (first * 256 + 0) 0xaa) (second * 256 + 0) 0xbb

module _ {h : Host} (host : IsHost h) (decodable : IsDecodable h) where
  program_two_blocks-Rests :
      (first second : ℕ) (d : Bytes) (r : Rig)
      → first < 256
      → second < 256
      → first ≢ second
      → Rests host d r
      → Returns h
          (Rests host (two_blocks d first second))
          (program_two_blocks h (first * 256) (second * 256) r)
  unfolding program_two_blocks
  program_two_blocks-Rests first second d r hf hs apart s =
      let d1 = page_of d (first * 256 + 0) 0xaa in
      let d2 = two_blocks d first second in
      bind (program_page host first 0 hf (omega arith) d r s 0xaa (omega arith)) λ t a.
        bind
          (program_page host second 0 hs (omega arith) d1 t (RestsAt-Rests host a) 0xbb
            (omega arith))
          λ u b.
            bind
              (confirms host decodable first 0 0xaa d2 u hf (omega arith) (λ j e. ground arith)
                (RestsAt-Rests host b))
              λ v q.
                confirms host decodable second 0 0xbb d2 v hs (omega arith) (λ j e. ground arith) q

  -- Blocks are erased, and two pages of theirs are confirmed.
  erases_two :
      (b n first second : ℕ) (d : Bytes) (r : Rig)
      → b < 256
      → n * 65536 ≤ storage_size
      → first < 256
      → second < 256
      → ((j : ℕ) → j / 65536 ≡ first → erased (b * 65536) n d j ≡ 0)
      → ((j : ℕ) → j / 65536 ≡ second → erased (b * 65536) n d j ≡ 0)
      → Rests host d r
      → Returns h (Rests host (erased (b * 65536) n d)) (
          erase_blocks h (b * 256) n r >>= λ r.
          confirm_page h (first * 256) 0 0 r >>= λ r. confirm_page h (second * 256) 0 0 r)
  erases_two b n first second d r hb room hf hs one other s =
      bind (erase_blocks-Rests host b n d r hb room s) λ t q.
        bind
          (confirms host decodable first 0 0 (erased (b * 65536) n d) t hf (omega arith)
            (λ j e. one j (omega arith)) q)
          λ u q'.
            confirms host decodable second 0 0 (erased (b * 65536) n d) u hs (omega arith)
              (λ j e. other j (omega arith)) q'

  module _ (d : Bytes) (r : Rig) (s : Rests host d r) where
    pub erase_two_blocks_test-Rests :
        Returns h (Rests host (erased 0 2 (two_blocks d 0 1))) (erase_two_blocks_test h r)
    unfolding erase_two_blocks_test
    erase_two_blocks_test-Rests =
        bind (program_two_blocks-Rests 0 1 d r (omega arith) (omega arith) (omega arith) s) λ t a.
          erases_two 0 2 0 1 (two_blocks d 0 1) t (omega arith) (omega arith) (omega arith)
            (omega arith) (λ j e. ground arith) (λ j e. ground arith) a

    pub erase_last_two_blocks_test-Rests :
        Returns h
          (Rests host (erased (255 * 65536) 2 (two_blocks d 255 0)))
          (erase_last_two_blocks_test h r)
    unfolding erase_last_two_blocks_test
    erase_last_two_blocks_test-Rests =
        bind (program_two_blocks-Rests 255 0 d r (omega arith) (omega arith) (omega arith) s) λ t a.
          erases_two 255 2 255 0 (two_blocks d 255 0) t (omega arith) (omega arith) (omega arith)
            (omega arith) (λ j e. ground arith) (λ j e. ground arith) a

    pub erase_all_blocks_test-Rests :
        Returns h (Rests host (erased 0 256 (two_blocks d 255 0))) (erase_all_blocks_test h r)
    unfolding erase_all_blocks_test
    erase_all_blocks_test-Rests =
        bind (program_two_blocks-Rests 255 0 d r (omega arith) (omega arith) (omega arith) s) λ t a.
          erases_two 0 256 255 0 (two_blocks d 255 0) t (omega arith) (omega arith) (omega arith)
            (omega arith) (λ j e. ground arith) (λ j e. ground arith) a

    -- The second page is read without its address.
    pub write_and_read_two_pages_test-Rests :
        Returns h
          (Rests host (two_pages host decodable (erased_page host decodable d) 0))
          (write_and_read_two_pages_test h r)
    unfolding write_and_read_two_pages_test
    write_and_read_two_pages_test-Rests =
        let d1 = erased_page host decodable d in
        let d2 = two_pages host decodable d1 0 in
        bind (erase_block_test-Rests host decodable d r s) λ t a.
          bind (program_two_pages-Rests host decodable 0 0 d1 t (omega arith) (omega arith) a)
            λ u b.
              bind
                (confirm_page-Reads host 0 0 (omega arith) (omega arith) d2 u b 0xaa decodable
                  (λ j e. ground arith))
                λ v q.
                  mono
                    (confirm_next-Reads host 256 0xbb d2 v decodable (λ i hi. ground arith)
                      (Reads-CanRead host q))
                    λ w q'. Reads-Rests host q'

    pub reset_test-Rests : Returns h (Rests host (erased_page host decodable d)) (reset_test h r)
    unfolding reset_test
    reset_test-Rests =
        bind
          (send_setup-programming host 0 0 0 (omega arith) (omega arith) (omega arith) d r s.idle)
          λ t p.
            bind (send_data-Accepting host 256 0xcc 0 d (λ _. 0) t (omega arith) (omega arith) p)
              λ u q.
                erase_block_test-Rests host decodable d (gpio_set h 1 1 u)
                  (gpio_set-reset host d u q.holds s.bytes)

    -- The status pin cannot be set.
    pub set_status_pin_test-Rests :
        Returns h (Rests host (erased_page host decodable d)) (set_status_pin_test h r)
    unfolding set_status_pin_test gpio_set handle_breakpoint_gpio_set
    set_status_pin_test-Rests = erase_block_test-Rests host decodable d r s

    pub get_reset_pin_test-Rests : Returns h (Rests host d) (get_reset_pin_test h r)
    unfolding get_reset_pin_test gpio_get handle_breakpoint_gpio_get
    get_reset_pin_test-Rests = returns s

    -- Data that goes round within a page replaces what was there.
    pub overwrite_page_test-Rests :
        Returns h
          (Rests host (page_of (erased_page host decodable d) 0 0xdd))
          (overwrite_page_test h r)
    unfolding overwrite_page_test
    overwrite_page_test-Rests =
        let d1 = erased_page host decodable d in
        let d2 = page_of d1 0 0xdd in
        bind (erase_block_test-Rests host decodable d r s) λ t a.
          bind
            (send_setup-programming host 0 0 0 (omega arith) (omega arith) (omega arith) d1 t
              a.idle)
            λ t1 p1.
              bind
                (send_data-Accepting host 128 0xaa 0 d1 (λ _. 0) t1 (omega arith) (omega arith) p1)
                λ t2 p2.
                  bind
                    (send_data-Accepting host 256 0xdd 128 d1 (ring (λ _. 0) 0 128 0xaa) t2
                      (omega arith) (omega arith) p2)
                    λ t3 p3.
                      bind
                        (programmed host 128 256 d1 _ d2 t3 refl (λ j. ground arith)
                          (λ j. ground (arith, a.bytes j)) p3)
                        λ t4 p4. reads_twice d2 t4 (λ j e. ground arith) (RestsAt-Rests host p4)
      where
        reads_twice :
            (d : Bytes) (r : Rig)
            → ((j : ℕ) → j < 256 → d j ≡ 0xdd)
            → Rests host d r
            → Returns h
                (Rests host d)
                (read_range h 0 0 0 r >>= λ r. load_word h r >>= λ (_, r). confirm h 0xdd 256 r)
        reads_twice d r full s =
            bind (read_range-Reads host 0 0 0 d r (omega arith) (omega arith) (omega arith) s)
              λ t q.
                bind (load_word-Providing host 0 d (page_bytes d 0) t decodable q.cached q.provides)
                  λ (_, u) (_, p).
                    mono
                      (confirm-Reads host 256 0xdd 1 d (page_bytes d 0) u decodable
                        (λ i hi. full _ (omega arith))
                        (record { provides = p; bytes = q.bytes; cached = q.cached }))
                      λ v q'. Reads-Rests host q'
