-- ===== src/UnitTests/Emulator/AllPages.antt =====
-- The test of every page (device/test_device.c), which the unit test of the emulator leaves out, fails: behind its
-- loop one more execute command goes to the first page.
use v_spells_nand_use_case.Prelude.{
  ℕ, zero, suc, ◌+◌, ◌-◌, ◌*◌, ◌%◌, ◌≤◌, ◌<◌, ◌≡◌, refl, arith, Bytes, subst, inl, false, none,
  ◌==◌,
}
use v_spells_nand_use_case.Outcome.{Outcome, stop, assertion, clock_failed, ◌>>=◌}
use v_spells_nand_use_case.Host.{Host}
use v_spells_nand_use_case.Clock.Laws.{IsHost, Returns, returns, lost, bind}
use v_spells_nand_use_case.Device.IoRegs.Laws.{IsDecodable}
use v_spells_nand_use_case.Device.Rig.{read_awaiting_execute, Rig}
use v_spells_nand_use_case.Device.Store.Laws.{storage_size}
use v_spells_nand_use_case.Transfer.Phase.{Phase}
use v_spells_nand_use_case.Transfer.Read.{page_bytes}
use v_spells_nand_use_case.UnitTests.Emulator.{
  execute, confirm, confirm_next, program_pages, confirm_pages, write_and_read_all_pages_test,
}
use v_spells_nand_use_case.UnitTests.Emulator.Addresses.{send_setup-programming, send_setup-reading}
use v_spells_nand_use_case.UnitTests.Emulator.Steps.{page_of, load_word-Providing, execute-read}
use v_spells_nand_use_case.UnitTests.Emulator.Ranges.{
  Rests, RestsAt, Reads, programmed, RestsAt-Rests, program_next-RestsAt,
}

-- the run ends at an assertion, or the clock could not be read
pub data Asserts (h : Host) : Outcome Rig → Type 0 where
  failed : Asserts h (stop assertion)
  clock_lost : {i : ℕ} → h.clock_gettime i ≡ none → Asserts h (stop (clock_failed i))

module _ {h : Host} (host : IsHost h) (decodable : IsDecodable h) where
  -- the storage with one value in all pages but the last `pages`
  record FilledTo (v pages : ℕ) (d : Bytes) (r : Rig) : Type 0 where
    next : RestsAt host ((65536 - pages) % 65536 * 256) d r
    filled : (j : ℕ) → j < (65536 - pages) * 256 → d j ≡ v

  program_pages-fills :
      (pages v : ℕ) (d : Bytes) (r : Rig)
      → pages ≤ 65536
      → v < 256
      → FilledTo v pages d r
      → Returns h
          (λ t. (d' : Bytes) × RestsAt host 0 d' t × ((j : ℕ) → j < storage_size → d' j ≡ v))
          (program_pages h v pages r)
  unfolding program_pages
  program_pages-fills zero v d r room small f =
      returns (d, f.next, λ j hj. f.filled j (omega arith))
  program_pages-fills (suc pages) v d r room small f =
      let page = 65535 - pages in
      let d' = page_of d page v in
      let here : (65536 - suc pages) % 65536 * 256 ≡ page * 256 = omega arith in
      let on : (page + 1) * 256 % storage_size ≡ (65536 - pages) % 65536 * 256 = omega arith in
      bind
        (program_next-RestsAt host v page d r small (omega arith)
          (subst (λ k. RestsAt host k d r) here f.next))
        λ t a. program_pages-fills pages v d' t (omega arith) small (record {
          next = subst (λ k. RestsAt host k d' t) on a;
          filled = λ j hj. ground (arith, f.filled j);
        })

  stops_later :
      {A : Type 0} {P : A → Type 0} {o : Outcome A} {k : A → Outcome Rig}
      → Returns h P o
      → ((a : A) → P a → Asserts h (k a))
      → Asserts h (o >>= k)
  stops_later (returns {a} p) next = next a p
  stops_later (lost e) next = clock_lost e

  stops_first : {o : Outcome Rig} (k : Rig → Outcome Rig) → Asserts h o → Asserts h (o >>= k)
  stops_first k failed = failed
  stops_first k (clock_lost e) = clock_lost e

  confirm-Asserts :
      (n v : ℕ) (d c : Bytes) (r : Rig)
      → (c 0 == v) ≡ false
      → Reads host 0 d c r
      → Asserts h (confirm h v (suc n) r)
  unfolding confirm
  confirm-Asserts n v d c r other s =
      stops_later (load_word-Providing host 0 d c r decodable s.cached s.provides)
        λ (word, t) (ew, q). rw (ew, other) failed

  -- The test of every page does not end well, if the clock can be read and the emulator can decode its reads, on
  -- an idle device whose storage holds bytes: an assertion fails.
  pub write_and_read_all_pages_test-Asserts :
      (d : Bytes) (r : Rig) → Rests host d r → Asserts h (write_and_read_all_pages_test h r)
  unfolding write_and_read_all_pages_test confirm_pages confirm_next
  write_and_read_all_pages_test-Asserts d r s =
      stops_later
        (send_setup-programming host 0 0 0 (omega arith) (omega arith) (omega arith) d r s.idle)
        λ r1 p.
          let begun : FilledTo 0xee 65536 d r1 = record {
            next = record { accepts = p; bytes = s.bytes };
            filled = λ j hj. absurd (omega arith);
          } in
          stops_later (program_pages-fills 65536 0xee d r1 (omega arith) (omega arith) begun)
            λ r2 (d2, s2, full).
              stops_later
                (programmed host 0 256 d2 (λ _. 0) (page_of d2 0 0) r2 refl (λ j. ground arith)
                  (λ j. ground (arith, s2.bytes j)) s2.accepts)
                λ r3 s3.
                  stops_later
                    (send_setup-reading host 0 0 0 (omega arith) (omega arith) (omega arith)
                      (page_of d2 0 0) r3 (RestsAt-Rests host s3).idle)
                    λ r4 q.
                      stops_first (confirm_pages h 0xee 65535)
                        (first_page (page_of d2 0 0) r4 refl s3.bytes q)
    where
      first_page :
          (d : Bytes) (r : Rig)
          → d 0 ≡ 0
          → ((j : ℕ) → d j < 256)
          → Phase host read_awaiting_execute 1 0 d (λ _. 0) r
          → Asserts h (execute h 2 r >>= λ r. confirm h 0xee 256 r)
      first_page d r blank bytes q = stops_later (execute-read host 0 d r (inl (λ _. 0, q))) λ t p.
          confirm-Asserts 255 0xee d (page_bytes d 0) t (ground (arith, blank))
            (record { provides = p; bytes = bytes; cached = λ j hj. bytes (0 + j) })
