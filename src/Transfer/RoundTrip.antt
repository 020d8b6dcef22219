-- ===== src/Transfer/RoundTrip.antt =====
-- What is written is read back.
use v_spells_nand_use_case.Prelude.{ℕ, ◌+◌, ◌-◌, ◌%◌, ◌≤◌, ◌<◌, ◌≡◌, ◌∙◌, arith, Bytes}
use v_spells_nand_use_case.Outcome.{ok, ◌>>=◌}
use v_spells_nand_use_case.Host.{Host}
use v_spells_nand_use_case.Clock.Laws.{IsHost, Returns, returns, bind}
use v_spells_nand_use_case.Device.IoRegs.Laws.{IsDecodable}
use v_spells_nand_use_case.Device.Store.Laws.{storage_size}
use v_spells_nand_use_case.Device.Rig.{Rig}
use v_spells_nand_use_case.Driver.Interface.{success}
use v_spells_nand_use_case.Driver.Alpha.{table}
use v_spells_nand_use_case.Framework.JumpTable.{jt_write, jt_read}
use v_spells_nand_use_case.Transfer.Phase.{IsIdle}
use v_spells_nand_use_case.Transfer.Written.{behind, pages_size, written}
use v_spells_nand_use_case.Transfer.Write.{jt_write-written}
use v_spells_nand_use_case.Transfer.Fetch.{from, jt_read-Fetched}

pub written_byte :
    (buffer : Bytes) (cursor n : ℕ) (d : Bytes) (i : ℕ)
    → ((k : ℕ) → d k < 256)
    → ((k : ℕ) → buffer k < 256)
    → written buffer 0 cursor n d i < 256
unfolding written
written_byte buffer cursor n d i small bytes =
    ground (arith, small i, bytes (0 + (behind cursor i - cursor % 256)))

pub from_written :
    (buffer : Bytes) (cursor n : ℕ) (d : Bytes) (j : ℕ)
    → cursor < storage_size
    → pages_size cursor n ≤ storage_size
    → j < n
    → from (written buffer 0 cursor n d) cursor j ≡ buffer j
unfolding written
from_written buffer cursor n d j inside fits hj =
    let place : behind cursor ((cursor + j) % storage_size) ≡ cursor % 256 + j = omega arith in
    let index : 0 + (cursor % 256 + j - cursor % 256) ≡ j = omega arith in
    rw (place, index) (ground arith)

module _ {h : Host} (host : IsHost h) where
  -- On an idle device, `jt_write` and then `jt_read` of the same range with the correct driver, whose
  -- loads the emulator can decode, both return success, if the clock can be read, and the read returns
  -- the bytes that were written. The transfer has at least one byte, and its pages fit the storage.
  pub jt_read-jt_write :
      (buffer into : Bytes) (offset size : ℕ) (d : Bytes) (r : Rig)
      → IsDecodable h
      → ((i : ℕ) → d i < 256)
      → ((i : ℕ) → buffer i < 256)
      → 0 < size
      → pages_size offset size ≤ storage_size
      → IsIdle host d r
      → Returns h
          (λ (code, code', b, t).
            (code ≡ success) × (code' ≡ success) × ((j : ℕ) → j < size → b j ≡ buffer j))
          (jt_write (table h) buffer offset size r >>= λ (code, t).
            jt_read (table h) into offset size t >>= λ (code', b, u). ok (code, code', b, u))
  jt_read-jt_write buffer into offset size d r decodable small bytes some_bytes fits idle =
      let d' = written buffer 0 (offset % storage_size) size d in
      bind (jt_write-written host buffer bytes offset size d r some_bytes fits idle)
        λ (code, t) (done, after).
          bind
            (jt_read-Fetched host d'
              (λ i. written_byte buffer (offset % storage_size) size d i small bytes) decodable into
              offset size t some_bytes (omega arith) after)
            λ (code', b, u) (done', got, _). returns (
              done,
              done',
              λ j hj. got j ∙ ground (arith, from_written buffer (offset % storage_size) size d j),
            )
