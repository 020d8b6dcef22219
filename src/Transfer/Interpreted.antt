-- ===== src/Transfer/Interpreted.antt =====
-- Transfers through an operation, with the correct interpreter and the emulator, against the mirror.
use v_spells_nand_use_case.Prelude.{ℕ, ◌+◌, ◌*◌, ◌^◌, ◌≤◌, ◌<◌, ◌≡◌, arith, inl, Bytes}
use v_spells_nand_use_case.Host.{Host}
use v_spells_nand_use_case.Clock.Laws.{IsHost, Returns}
use v_spells_nand_use_case.Device.Store.Laws.{storage_size}
use v_spells_nand_use_case.Device.Rig.{Rig}
use v_spells_nand_use_case.Driver.Interface.{success}
use v_spells_nand_use_case.Driver.Foxtrot.{exec_op}
use v_spells_nand_use_case.Driver.Foxtrot.Paths.{exec_write-jt_write, exec_erase-jt_erase}
use v_spells_nand_use_case.Driver.Foxtrot.Reads.{exec_read-jt_read}
use v_spells_nand_use_case.Device.IoRegs.Laws.{IsDecodable}
use v_spells_nand_use_case.Framework.JumpTable.{block_count}
use v_spells_nand_use_case.Framework.ExecOp.{exec_write, exec_erase, exec_read}
use v_spells_nand_use_case.Tester.Mirror.{write_mirror, erase_mirror, read_mirror}
use v_spells_nand_use_case.Transfer.Phase.{IsIdle}
use v_spells_nand_use_case.Transfer.Written.{pages_size}
use v_spells_nand_use_case.Transfer.Mirror.{jt_write-mirror, jt_erase-mirror, jt_read-mirror}

module _ {h : Host} (host : IsHost h) where
  -- On an idle device that holds `d`, `exec_write` with foxtrot_0 returns success, if the clock can be
  -- read, and the device is idle again and holds what `write_mirror` makes of `d`. The transfer has at
  -- least one byte, its pages fit the storage, and its last page ends below 2 ^ 32.
  pub exec_write-mirror :
      (buffer : Bytes) (offset size : ℕ) (d : Bytes) (r : Rig)
      → ((i : ℕ) → buffer i < 256)
      → 0 < size
      → pages_size offset size ≤ storage_size
      → offset + size + 255 < 2 ^ 32
      → IsIdle host d r
      → Returns h
          (λ (code, t). (code ≡ success) × IsIdle host (write_mirror buffer offset size d) t)
          (exec_write (exec_op h) buffer offset size r)
  exec_write-mirror buffer offset size d r bytes some_bytes fits no_wrap idle =
      rw (exec_write-jt_write h buffer offset size r (omega arith) (omega arith) (inl some_bytes))
        (jt_write-mirror host buffer offset size d r bytes some_bytes fits no_wrap idle)

  -- On an idle device that holds `d`, `exec_erase` with foxtrot_0 returns success, if the clock can be
  -- read, and the device is idle again and holds what `erase_mirror` makes of `d`. The range has at
  -- least one byte, its blocks fit the storage, and its last block ends below 2 ^ 32.
  pub exec_erase-mirror :
      (offset size : ℕ) (d : Bytes) (r : Rig)
      → 0 < size
      → block_count offset size * 65536 ≤ storage_size
      → offset + size + 65535 < 2 ^ 32
      → IsIdle host d r
      → Returns h
          (λ (code, t). (code ≡ success) × IsIdle host (erase_mirror offset size d) t)
          (exec_erase (exec_op h) offset size r)
  exec_erase-mirror offset size d r some_bytes fits no_wrap idle =
      rw (exec_erase-jt_erase h offset size r)
        (jt_erase-mirror host offset size d r some_bytes fits no_wrap idle)

  -- On an idle device that holds the bytes `d`, `exec_read` with foxtrot_0, whose loads the emulator can
  -- decode, returns success, if the clock can be read; the device is idle again and still holds `d`,
  -- and the buffer is what `read_mirror` makes of it. The transfer has at least one byte, the offset
  -- is below 2 ^ 32, and the size is below 2 ^ 30 - 256.
  pub exec_read-mirror :
      (buffer : Bytes) (offset size : ℕ) (d : Bytes) (r : Rig)
      → IsDecodable h
      → ((i : ℕ) → d i < 256)
      → 0 < size
      → offset < 2 ^ 32
      → size + 256 < 2 ^ 30
      → IsIdle host d r
      → Returns h
          (λ (code, b, t).
            (code ≡ success)
            × ((j : ℕ) → b j ≡ read_mirror d buffer offset size j)
            × IsIdle host d t)
          (exec_read (exec_op h) buffer offset size r)
  exec_read-mirror buffer offset size d r decodable bytes some_bytes fits short idle =
      rw (exec_read-jt_read h buffer offset size r fits short (inl some_bytes))
        (jt_read-mirror host buffer offset size d r decodable bytes some_bytes (omega arith) idle)
