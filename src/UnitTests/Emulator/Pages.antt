-- ===== src/UnitTests/Emulator/Pages.antt =====
-- The tests of the emulator that program and confirm pages pass.
use v_spells_nand_use_case.Prelude.{
  ℕ, ◌+◌, ◌*◌, ◌/◌, ◌%◌, ◌<◌, ◌≡◌, refl, arith, Bytes, subst, ◌==◌, if◌then◌else◌,
}
use v_spells_nand_use_case.Host.{Host}
use v_spells_nand_use_case.Clock.Laws.{IsHost, Returns, bind, mono}
use v_spells_nand_use_case.Device.IoRegs.Laws.{IsDecodable}
use v_spells_nand_use_case.Device.Rig.{Rig}
use v_spells_nand_use_case.Device.Store.Laws.{storage_size}
use v_spells_nand_use_case.Transfer.Erase.{erased}
use v_spells_nand_use_case.UnitTests.Emulator.{
  confirm_page, program_range, wr_page_test, erase_block_test, wr_less_than_page_test,
  program_two_pages, write_two_pages_test, write_last_two_pages_test,
}
use v_spells_nand_use_case.UnitTests.Emulator.Addresses.{send_setup-programming}
use v_spells_nand_use_case.UnitTests.Emulator.Steps.{page_of, ring, send_data-Accepting}
use v_spells_nand_use_case.UnitTests.Emulator.Ranges.{
  Rests, RestsAt, RestsAt-Rests, Reads-Rests, programmed, program_page, program_next-RestsAt,
  read_range-Reads, confirm-Reads, confirm_page-Reads,
}
use v_spells_nand_use_case.UnitTests.Emulator.Erases.{erase_blocks-Rests}

module _ {h : Host} (host : IsHost h) (decodable : IsDecodable h) where
  -- a page that holds one value is confirmed
  pub confirms :
      (b p v : ℕ) (d : Bytes) (r : Rig)
      → b < 256
      → p < 256
      → ((j : ℕ) → j / 256 ≡ b * 256 + p → d j ≡ v)
      → Rests host d r
      → Returns h (Rests host d) (confirm_page h (b * 256) (p * 256) v r)
  confirms b p v d r hb hp same s =
      mono (confirm_page-Reads host b p hb hp d r s v decodable same) λ t q. Reads-Rests host q

  -- the storage after the first two tests
  abbrev pub written_page : Bytes → Bytes
  written_page d = page_of d 0 0xff

  abbrev pub erased_page : Bytes → Bytes
  erased_page d = erased 0 1 (written_page d)

  module _ (d : Bytes) (r : Rig) (s : Rests host d r) where
    pub wr_page_test-Rests : Returns h (Rests host (written_page d)) (wr_page_test h r)
    unfolding wr_page_test
    wr_page_test-Rests =
        bind (program_page host 0 0 (omega arith) (omega arith) d r s 0xff (omega arith)) λ t a.
          confirms 0 0 0xff (written_page d) t (omega arith) (omega arith) (λ j e. ground arith)
            (RestsAt-Rests host a)

  pub erase_block_test-Rests :
      (d : Bytes) (r : Rig)
      → Rests host d r
      → Returns h (Rests host (erased_page d)) (erase_block_test h r)
  unfolding erase_block_test
  erase_block_test-Rests d r s = bind (wr_page_test-Rests d r s) λ t a.
      bind (erase_blocks-Rests host 0 1 (written_page d) t (omega arith) (omega arith) a)
        λ u q. confirms 0 0 0 (erased_page d) u (omega arith) (omega arith) (λ j e. ground arith) q

  -- the storage with ten bytes in its first page
  abbrev pub part_written : Bytes → Bytes
  part_written d j = if j / 256 == 0 then ring (λ _. 0) 10 10 0xff (j % 256) else d j

  pub wr_less_than_page_test-Rests :
      (d : Bytes) (r : Rig)
      → Rests host d r
      → Returns h (Rests host (part_written d)) (wr_less_than_page_test h r)
  unfolding wr_less_than_page_test program_range
  wr_less_than_page_test-Rests d r s =
      bind
        (bind
          (send_setup-programming host 0 0 10 (omega arith) (omega arith) (omega arith) d r s.idle)
          λ t p.
            bind (send_data-Accepting host 10 0xff 10 d (λ _. 0) t (omega arith) (omega arith) p)
              λ u q.
                programmed host 20 256 d (ring (λ _. 0) 10 10 0xff) (part_written d) u refl
                  (λ j. ground arith) (λ j. ground (arith, s.bytes j)) q)
        λ t a.
          bind
            (read_range-Reads host 0 0 0 (part_written d) t (omega arith) (omega arith)
              (omega arith) (RestsAt-Rests host a))
            λ r0 q.
              bind
                (confirm-Reads host 10 0 0 (part_written d) _ r0 decodable (λ i hi. ground arith) q)
                λ r1 q1.
                  bind
                    (confirm-Reads host 10 0xff 10 (part_written d) _ r1 decodable
                      (λ i hi. ground arith) q1)
                    λ r2 q2.
                      mono
                        (confirm-Reads host 10 0 20 (part_written d) _ r2 decodable
                          (λ i hi. ground arith) q2)
                        λ r3 q3. Reads-Rests host q3

  -- the storage with one value in a page and another in the page that follows
  abbrev pub two_pages : Bytes → ℕ → Bytes
  two_pages d page = page_of (page_of d page 0xaa) ((page + 1) % 65536) 0xbb

  pub program_two_pages-Rests :
      (b p : ℕ) (d : Bytes) (r : Rig)
      → b < 256
      → p < 256
      → Rests host d r
      → Returns h
          (Rests host (two_pages d (b * 256 + p)))
          (program_two_pages h (b * 256) (p * 256) r)
  unfolding program_two_pages
  program_two_pages-Rests b p d r hb hp s =
      let page = b * 256 + p in
      let next : (page + 1) * 256 % storage_size ≡ (page + 1) % 65536 * 256 = omega arith in
      bind (program_page host b p hb hp d r s 0xaa (omega arith)) λ t a.
        mono
          (program_next-RestsAt host 0xbb ((page + 1) % 65536) (page_of d page 0xaa) t (omega arith)
            (omega arith) (subst (λ k. RestsAt host k (page_of d page 0xaa) t) next a))
          λ u q. RestsAt-Rests host q

  -- two pages that follow one another are programmed and confirmed
  pub write_two_pages_test-Rests :
      (d : Bytes) (r : Rig)
      → Rests host d r
      → Returns h (Rests host (two_pages d 0)) (write_two_pages_test h r)
  unfolding write_two_pages_test
  write_two_pages_test-Rests d r s =
      bind (program_two_pages-Rests 0 0 d r (omega arith) (omega arith) s) λ t a.
        bind
          (confirms 0 0 0xaa (two_pages d 0) t (omega arith) (omega arith) (λ j e. ground arith) a)
          λ u q.
            confirms 0 1 0xbb (two_pages d 0) u (omega arith) (omega arith) (λ j e. ground arith) q

  pub write_last_two_pages_test-Rests :
      (d : Bytes) (r : Rig)
      → Rests host d r
      → Returns h (Rests host (two_pages d 65535)) (write_last_two_pages_test h r)
  unfolding write_last_two_pages_test
  write_last_two_pages_test-Rests d r s =
      bind (program_two_pages-Rests 255 255 d r (omega arith) (omega arith) s) λ t a.
        bind
          (confirms 255 255 0xaa (two_pages d 65535) t (omega arith) (omega arith)
            (λ j e. ground arith) a)
          λ u q.
            confirms 0 0 0xbb (two_pages d 65535) u (omega arith) (omega arith)
              (λ j e. ground arith) q
