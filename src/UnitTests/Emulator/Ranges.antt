-- ===== src/UnitTests/Emulator/Ranges.antt =====
-- What the tests of the emulator do to a device at rest: program a page, confirm what a page holds, and erase
-- blocks.
use v_spells_nand_use_case.Prelude.{
  ℕ, ◌+◌, ◌*◌, ◌/◌, ◌%◌, ◌<◌, ◌≡◌, refl, ◌∙◌, arith, Bytes, subst, inl, inr,
}
use v_spells_nand_use_case.Host.{Host}
use v_spells_nand_use_case.Clock.Laws.{IsHost, Returns, bind, mono}
use v_spells_nand_use_case.Device.IoRegs.Laws.{IsDecodable}
use v_spells_nand_use_case.Device.Rig.{Rig}
use v_spells_nand_use_case.Device.Store.Laws.{storage_size}
use v_spells_nand_use_case.Transfer.Phase.{IsIdle, Phase-adjust}
use v_spells_nand_use_case.Transfer.Program.{Accepting}
use v_spells_nand_use_case.Transfer.Execute.{paged}
use v_spells_nand_use_case.Transfer.Read.{page_bytes, Providing, Reading}
use v_spells_nand_use_case.UnitTests.Emulator.{
  execute, confirm, program_range, read_range, confirm_page, program_next, confirm_next,
}
use v_spells_nand_use_case.UnitTests.Emulator.Addresses.{send_setup-programming, send_setup-reading}
use v_spells_nand_use_case.UnitTests.Emulator.Steps.{
  page_of, send_data-Accepting, execute-program, execute-read, confirm-Providing,
}

module _ {h : Host} (host : IsHost h) where
  -- The device is idle, and its storage holds the bytes `d`.
  pub record Rests (d : Bytes) (r : Rig) : Type 0 where
    pub idle : IsIdle host d r
    pub bytes : (j : ℕ) → d j < 256

  -- the same, between two pages that are programmed one after the other
  pub record RestsAt (cursor : ℕ) (d : Bytes) (r : Rig) : Type 0 where
    pub accepts : Accepting host cursor d (λ _. 0) r
    pub bytes : (j : ℕ) → d j < 256

  -- the same, with the bytes `c` in the cache to be read
  pub record Reads (cursor : ℕ) (d c : Bytes) (r : Rig) : Type 0 where
    pub provides : Providing host cursor d c r
    pub bytes : (j : ℕ) → d j < 256
    pub cached : (j : ℕ) → j < 256 → c j < 256

  -- the same, where the execute command of a read is taken
  pub record CanRead (cursor : ℕ) (d : Bytes) (r : Rig) : Type 0 where
    pub reading : Reading host cursor d r
    pub bounded : cursor < storage_size
    pub bytes : (j : ℕ) → d j < 256

  pub Reads-CanRead : {cursor : ℕ} {d c : Bytes} {r : Rig} → Reads cursor d c r → CanRead cursor d r
  Reads-CanRead {c} s = record {
    reading = inr (c, s.provides);
    bounded = s.provides.bounded;
    bytes = s.bytes;
  }

  pub RestsAt-Rests : {cursor : ℕ} {d : Bytes} {r : Rig} → RestsAt cursor d r → Rests d r
  RestsAt-Rests s = record {
    idle = record {
      between = inr (inr (inl s.accepts.state));
      ready = s.accepts.ready;
      bounded = omega (arith, s.accepts.at, s.accepts.bounded);
      holds = s.accepts.holds;
    };
    bytes = s.bytes;
  }

  pub Reads-Rests : {cursor : ℕ} {d c : Bytes} {r : Rig} → Reads cursor d c r → Rests d r
  Reads-Rests s = record {
    idle = record {
      between = inr (inl s.provides.state);
      ready = s.provides.ready;
      bounded = omega (arith, s.provides.at, s.provides.bounded);
      holds = s.provides.holds;
    };
    bytes = s.bytes;
  }

  pub Rests-adjust : {d d' : Bytes} {r : Rig} → Rests d r → ((j : ℕ) → d j ≡ d' j) → Rests d' r
  Rests-adjust {d} s same = record {
    idle = record {
      between = s.idle.between;
      ready = s.idle.ready;
      bounded = s.idle.bounded;
      holds = λ j. s.idle.holds j ∙ same j;
    };
    bytes = λ j. subst (λ v. v < 256) (same j) (s.bytes j);
  }

  -- the storage once the page at `cursor` holds `c`
  pub programmed :
      (cursor next : ℕ) (d c d' : Bytes) (r : Rig)
      → next ≡ (cursor / 256 * 256 + 256) % storage_size
      → ((j : ℕ) → paged d c cursor j ≡ d' j)
      → ((j : ℕ) → d' j < 256)
      → Accepting host cursor d c r
      → Returns h (RestsAt next d') (execute h 4 r)
  programmed cursor next d c d' r en ed bytes p =
      mono (execute-program host cursor d c r p) λ t q. record {
        accepts = rw en (Phase-adjust host q refl ed (λ j hj. refl));
        bytes = bytes;
      }

  -- A page full of one value follows the one that was programmed before.
  pub program_next-RestsAt :
      (v page : ℕ) (d : Bytes) (r : Rig)
      → v < 256
      → page < 65536
      → RestsAt (page * 256) d r
      → Returns h
          (RestsAt ((page + 1) * 256 % storage_size) (page_of d page v))
          (program_next h v r)
  unfolding program_next
  program_next-RestsAt v page d r small inside s =
      bind (send_data-Accepting host 256 v (page * 256) d (λ _. 0) r (omega arith) small s.accepts)
        λ t p.
          programmed (page * 256 / 256 * 256 + (page * 256 + 256) % 256)
            ((page + 1) * 256 % storage_size) d _ (page_of d page v) t (omega arith)
            (λ j. ground arith) (λ j. ground (arith, s.bytes j)) p

  -- A range of a page is read into the cache.
  pub read_range-Reads :
      (b p y : ℕ) (d : Bytes) (r : Rig)
      → b < 256
      → p < 256
      → y < 256
      → Rests d r
      → Returns h
          (Reads (b * 65536 + p * 256 + y) d (page_bytes d (b * 65536 + p * 256 + y)))
          (read_range h (b * 256) (p * 256) (y * 256) r)
  unfolding read_range
  read_range-Reads b p y d r hb hp hy s =
      bind (send_setup-reading host b p y hb hp hy d r s.idle) λ t q.
        mono (execute-read host (b * 65536 + p * 256 + y) d t (inl (λ _. 0, q))) λ u reads. record {
          provides = reads;
          bytes = s.bytes;
          cached = λ j hj. s.bytes ((b * 65536 + p * 256 + y) / 256 * 256 + j);
        }

  -- The loads that follow one another confirm a value.
  pub confirm-Reads :
      (n v cursor : ℕ) (d c : Bytes) (r : Rig)
      → IsDecodable h
      → ((i : ℕ) → i < n → c ((cursor + i) % 256) ≡ v)
      → Reads cursor d c r
      → Returns h (Reads ((cursor + n) % storage_size) d c) (confirm h v n r)
  confirm-Reads n v cursor d c r decodable same s =
      mono (confirm-Providing host n v cursor d c r decodable s.cached same s.provides)
        λ t q. record { provides = q; bytes = s.bytes; cached = s.cached }

  -- A read may go on with the page that follows.
  pub confirm_next-Reads :
      (cursor v : ℕ) (d : Bytes) (r : Rig)
      → IsDecodable h
      → ((i : ℕ) → i < 256 → d (cursor / 256 * 256 + i) ≡ v)
      → CanRead cursor d r
      → Returns h
          (Reads ((cursor + 256) % storage_size) d (page_bytes d cursor))
          (confirm_next h v r)
  unfolding confirm_next
  confirm_next-Reads cursor v d r decodable same s =
      bind (execute-read host cursor d r s.reading) λ t q.
        confirm-Reads 256 v cursor d (page_bytes d cursor) t decodable
          (λ i hi. same ((cursor + i) % 256) (omega arith))
          (record {
            provides = q;
            bytes = s.bytes;
            cached = λ j hj. s.bytes (cursor / 256 * 256 + j);
          })

  module _ (b p : ℕ) (hb : b < 256) (hp : p < 256) (d : Bytes) (r : Rig) (s : Rests d r) where
    -- A page is programmed with one value.
    pub program_page :
        (v : ℕ)
        → v < 256
        → Returns h
            (RestsAt ((b * 256 + p + 1) * 256 % storage_size) (page_of d (b * 256 + p) v))
            (program_range h (b * 256) (p * 256) 0 v 256 r)
    unfolding program_range program_next
    program_page v small =
        bind (send_setup-programming host b p 0 hb hp (omega arith) d r s.idle) λ t q.
          program_next-RestsAt v (b * 256 + p) d t small (omega arith) (record {
            accepts = Phase-adjust host q (omega arith) (λ j. refl) (λ j hj. refl);
            bytes = s.bytes;
          })

    -- A page that holds one value is confirmed, and the storage stays as it is.
    pub confirm_page-Reads :
        (v : ℕ)
        → IsDecodable h
        → ((j : ℕ) → j / 256 ≡ b * 256 + p → d j ≡ v)
        → Returns h
            (Reads
              ((b * 65536 + p * 256 + 256) % storage_size)
              d
              (page_bytes d (b * 65536 + p * 256)))
            (confirm_page h (b * 256) (p * 256) v r)
    unfolding confirm_page
    confirm_page-Reads v decodable same =
        bind (read_range-Reads b p 0 d r hb hp (omega arith) s) λ t q.
          let cursor = b * 65536 + p * 256 in
          let at : b * 65536 + p * 256 + 0 ≡ cursor = omega arith in
          confirm-Reads 256 v cursor d (page_bytes d cursor) t decodable
            (λ i hi. same (cursor / 256 * 256 + (cursor + i) % 256) (omega arith)) (rw at at q)
