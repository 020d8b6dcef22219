-- ===== src/Transfer/Correct.antt =====
-- What the tester expects of a driver under the framework, and the two drivers that are correct.
use v_spells_nand_use_case.Prelude.{ℕ, ◌+◌, ◌*◌, ◌^◌, ◌≤◌, ◌<◌, ◌≡◌, arith, Bytes}
use v_spells_nand_use_case.Host.{Host}
use v_spells_nand_use_case.Clock.Laws.{IsHost, Returns}
use v_spells_nand_use_case.Device.IoRegs.Laws.{IsDecodable}
use v_spells_nand_use_case.Device.Store.Laws.{storage_size}
use v_spells_nand_use_case.Device.Rig.{Rig}
use v_spells_nand_use_case.Driver.Alpha.{get_driver}
use v_spells_nand_use_case.Driver.Foxtrot.{interpreter}
use v_spells_nand_use_case.Driver.Interface.{success, NandDriver}
use v_spells_nand_use_case.Framework.{write_nand, read_nand, erase_nand}
use v_spells_nand_use_case.Framework.JumpTable.{block_count}
use v_spells_nand_use_case.Tester.Mirror.{write_mirror, erase_mirror, read_mirror}
use v_spells_nand_use_case.Transfer.Interpreted.{
  exec_write-mirror, exec_erase-mirror, exec_read-mirror,
}
use v_spells_nand_use_case.Transfer.Mirror.{jt_write-mirror, jt_erase-mirror, jt_read-mirror}
use v_spells_nand_use_case.Transfer.Phase.{IsIdle}
use v_spells_nand_use_case.Transfer.Written.{pages_size}

-- On an idle device, transfers by the driver succeed, if the clock can be read, and do to the device
-- what the mirror's operations do to the mirror.
pub record IsCorrect {h : Host} (host : IsHost h) (driver : NandDriver) : Type 0 where
  pub writes :
      (buffer : Bytes) (offset size : ℕ) (d : Bytes) (r : Rig)
      → ((i : ℕ) → buffer i < 256)
      → 0 < size
      → pages_size offset size ≤ storage_size
      → offset + size + 255 < 2 ^ 32
      → IsIdle host d r
      → Returns h
          (λ (code, t). (code ≡ success) × IsIdle host (write_mirror buffer offset size d) t)
          (write_nand driver buffer offset size r)
  pub erases :
      (offset size : ℕ) (d : Bytes) (r : Rig)
      → 0 < size
      → block_count offset size * 65536 ≤ storage_size
      → offset + size + 65535 < 2 ^ 32
      → IsIdle host d r
      → Returns h
          (λ (code, t). (code ≡ success) × IsIdle host (erase_mirror offset size d) t)
          (erase_nand driver offset size r)
  pub reads :
      (buffer : Bytes) (offset size : ℕ) (d : Bytes) (r : Rig)
      → ((i : ℕ) → d i < 256)
      → 0 < size
      → offset < 2 ^ 32
      → size + 256 < 2 ^ 30
      → IsIdle host d r
      → Returns h
          (λ (code, b, t).
            (code ≡ success)
            × ((j : ℕ) → b j ≡ read_mirror d buffer offset size j)
            × IsIdle host d t)
          (read_nand driver buffer offset size r)

module _ {h : Host} (host : IsHost h) (decodable : IsDecodable h) where
  pub get_driver-IsCorrect : IsCorrect host (get_driver h)
  unfolding write_nand read_nand erase_nand
  get_driver-IsCorrect = record {
    writes = λ buffer offset size d r. jt_write-mirror host buffer offset size d r;
    erases = λ offset size d r. jt_erase-mirror host offset size d r;
    reads = λ buffer offset size d r bytes some_bytes fits short idle.
        jt_read-mirror host buffer offset size d r decodable bytes some_bytes (omega arith) idle;
  }

  pub interpreter-IsCorrect : IsCorrect host (interpreter h)
  unfolding write_nand read_nand erase_nand
  interpreter-IsCorrect = record {
    writes = λ buffer offset size d r. exec_write-mirror host buffer offset size d r;
    erases = λ offset size d r. exec_erase-mirror host offset size d r;
    reads = λ buffer offset size d r. exec_read-mirror host buffer offset size d r decodable;
  }
