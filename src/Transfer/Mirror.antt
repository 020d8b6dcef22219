-- ===== src/Transfer/Mirror.antt =====
-- The driver, the framework's jump table and the emulator together against the tester's mirror: the
-- refinement that the tester checks on runs.
use v_spells_nand_use_case.Prelude.{ℕ, ◌*◌, ◌+◌, ◌^◌, ◌≤◌, ◌<◌, ◌≡◌, ◌∙◌, sym, Bytes}
use v_spells_nand_use_case.Host.{Host}
use v_spells_nand_use_case.Clock.Laws.{IsHost, Returns, mono}
use v_spells_nand_use_case.Device.Store.Laws.{storage_size}
use v_spells_nand_use_case.Device.Rig.{Rig}
use v_spells_nand_use_case.Driver.Interface.{success}
use v_spells_nand_use_case.Driver.Alpha.{table}
use v_spells_nand_use_case.Framework.JumpTable.{block_count, jt_write, jt_erase, jt_read}
use v_spells_nand_use_case.Tester.Mirror.{write_mirror, erase_mirror, read_mirror}
use v_spells_nand_use_case.Tester.Mirror.Refines.{
  write_mirror-written, erase_mirror-erased, read_mirror-taken,
}
use v_spells_nand_use_case.Transfer.Phase.{IsIdle}
use v_spells_nand_use_case.Transfer.Written.{pages_size}
use v_spells_nand_use_case.Transfer.Write.{jt_write-written}
use v_spells_nand_use_case.Transfer.Erase.{jt_erase-erased}
use v_spells_nand_use_case.Transfer.Fetch.{jt_read-Fetched}
use v_spells_nand_use_case.Device.IoRegs.Laws.{IsDecodable}

module _ {h : Host} (host : IsHost h) where
  -- an idle device with the same storage
  IsIdle-adjust :
      {d d' : Bytes} {r : Rig} → ((j : ℕ) → d j ≡ d' j) → IsIdle host d r → IsIdle host d' r
  IsIdle-adjust same idle = record {
    between = idle.between;
    ready = idle.ready;
    bounded = idle.bounded;
    holds = λ j. idle.holds j ∙ same j;
  }

  -- On an idle device that holds `d`, `jt_write` with the correct driver returns success, if the clock
  -- can be read, and the device is idle again and holds what `write_mirror` makes of `d`. The transfer
  -- has at least one byte, its pages fit the storage, and its last page ends below 2 ^ 32.
  pub jt_write-mirror :
      (buffer : Bytes) (offset size : ℕ) (d : Bytes) (r : Rig)
      → ((i : ℕ) → buffer i < 256)
      → 0 < size
      → pages_size offset size ≤ storage_size
      → offset + size + 255 < 2 ^ 32
      → IsIdle host d r
      → Returns h
          (λ (code, t). (code ≡ success) × IsIdle host (write_mirror buffer offset size d) t)
          (jt_write (table h) buffer offset size r)
  jt_write-mirror buffer offset size d r bytes some_bytes fits no_wrap idle =
      mono (jt_write-written host buffer bytes offset size d r some_bytes fits idle)
        λ (code, t) (done, after). (
          done,
          IsIdle-adjust
              (λ j. sym (write_mirror-written buffer offset size d some_bytes fits no_wrap j))
              after,
        )

  -- On an idle device that holds `d`, `jt_erase` with the correct driver returns success, if the clock
  -- can be read, and the device is idle again and holds what `erase_mirror` makes of `d`. The range has
  -- at least one byte, its blocks fit the storage, and its last block ends below 2 ^ 32.
  pub jt_erase-mirror :
      (offset size : ℕ) (d : Bytes) (r : Rig)
      → 0 < size
      → block_count offset size * 65536 ≤ storage_size
      → offset + size + 65535 < 2 ^ 32
      → IsIdle host d r
      → Returns h
          (λ (code, t). (code ≡ success) × IsIdle host (erase_mirror offset size d) t)
          (jt_erase (table h) offset size r)
  jt_erase-mirror offset size d r some_bytes fits no_wrap idle =
      mono (jt_erase-erased host offset size d r fits idle) λ (code, t) (done, after). (
        done,
        IsIdle-adjust (λ j. sym (erase_mirror-erased offset size d j some_bytes fits no_wrap))
            after,
      )

  -- On an idle device that holds the bytes `d`, `jt_read` with the correct driver, whose loads the
  -- emulator can decode, returns success, if the clock can be read; the device is idle again and still
  -- holds `d`, and the buffer is what `read_mirror` makes of it. The transfer has at least one byte.
  pub jt_read-mirror :
      (buffer : Bytes) (offset size : ℕ) (d : Bytes) (r : Rig)
      → IsDecodable h
      → ((i : ℕ) → d i < 256)
      → 0 < size
      → size < 2 ^ 32
      → IsIdle host d r
      → Returns h
          (λ (code, b, t).
            (code ≡ success)
            × ((j : ℕ) → b j ≡ read_mirror d buffer offset size j)
            × IsIdle host d t)
          (jt_read (table h) buffer offset size r)
  jt_read-mirror buffer offset size d r decodable bytes some_bytes short idle =
      mono (jt_read-Fetched host d bytes decodable buffer offset size r some_bytes short idle)
        λ (code, b, t) (done, got, after).
          (done, λ j. got j ∙ sym (read_mirror-taken buffer d offset size j short), after)
