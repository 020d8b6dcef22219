-- ===== src/Tester/Stochastic/Operations.antt =====
-- The operations of the stochastic test (tester/st_stochastic.c) with a correct driver and the emulator.
use v_spells_nand_use_case.Prelude.{ℕ, ◌+◌, ◌*◌, ◌≤◌, ◌<◌, ◌≡◌, refl, arith, some, Bytes}
use v_spells_nand_use_case.Host.{Host}
use v_spells_nand_use_case.Clock.Laws.{IsHost, Returns, returns, bind}
use v_spells_nand_use_case.Driver.Interface.{Code, success, NandDriver}
use v_spells_nand_use_case.Device.Store.Laws.{storage_size}
use v_spells_nand_use_case.Framework.JumpTable.{block_count}
use v_spells_nand_use_case.Tester.Data.{data_init}
use v_spells_nand_use_case.Tester.Data.Laws.{data_init-bytes}
use v_spells_nand_use_case.Tester.Libc.{Libc, Session}
use v_spells_nand_use_case.Tester.Mirror.Reads.{write_mirror-bytes, erase_mirror-bytes}
use v_spells_nand_use_case.Tester.Stochastic.{do_erase, do_write, do_read_and_comparison}
use v_spells_nand_use_case.Tester.Stochastic.Choices.{IsInArena}
use v_spells_nand_use_case.Tester.Stochastic.Compare.{verdict-read_mirror}
use v_spells_nand_use_case.Transfer.Correct.{IsCorrect}
use v_spells_nand_use_case.Transfer.Phase.{IsIdle}
use v_spells_nand_use_case.Transfer.Written.{pages_size}

-- the device is idle and holds the mirror's bytes
pub record IsMirrored {h : Host} (host : IsHost h) (s : Session) : Type 0 where
  pub idle : IsIdle host s.mirror s.rig
  pub bytes : (i : ℕ) → s.mirror i < 256

-- memory does not run out, and a block holds bytes
abbrev pub IsAllocating : Libc → Type 0
IsAllocating libc =
    (calls size : ℕ) → (b : Bytes) × (libc.malloc calls size ≡ some b) × ((i : ℕ) → b i < 256)

arena_pages : (start size : ℕ) → IsInArena start size → pages_size start size ≤ storage_size
arena_pages start size (some_bytes, low, high) = omega arith

arena_blocks :
    (start size : ℕ) → IsInArena start size → block_count start size * 65536 ≤ storage_size
arena_blocks start size (some_bytes, low, high) = ground arith

-- after a run: success, the mirror agrees with the device, and `calls` random numbers were taken
abbrev pub Passed : {h : Host} → IsHost h → ℕ → Code × Session → Type 0
Passed host calls (code, t) = (code ≡ success) × IsMirrored host t × (t.randoms ≡ calls)

module _ {h : Host} {host : IsHost h} {driver : NandDriver} (correct : IsCorrect host driver) where
  pub do_erase-Passed :
      (start size : ℕ) (s : Session)
      → IsInArena start size
      → IsMirrored host s
      → Returns h (Passed host s.randoms) (do_erase driver start size s)
  unfolding do_erase
  do_erase-Passed start size s (some_bytes, low, high) before =
      bind
        (correct.erases start size s.mirror s.rig some_bytes
          (arena_blocks start size (some_bytes, low, high)) (omega arith) before.idle)
        λ (code, r) (done, idle). returns (
          done,
          record {
            idle = idle;
            bytes =
                erase_mirror-bytes start size s.mirror some_bytes
                  (arena_blocks start size (some_bytes, low, high)) (omega arith) before.bytes;
          },
          refl,
        )

  module _ (libc : Libc) (allocating : IsAllocating libc) where
    pub do_write-Passed :
        (start size : ℕ) (s : Session)
        → IsInArena start size
        → IsMirrored host s
        → Returns h (Passed host s.randoms) (do_write libc driver start size s)
    unfolding do_write
    do_write-Passed start size s (some_bytes, low, high) before =
        let (block, got, small) = allocating s.mallocs size in
        let buf = data_init block size in
        let fits = arena_pages start size (some_bytes, low, high) in
        rw (got, do_write)
          (bind
            (correct.writes buf start size s.mirror s.rig (data_init-bytes block size small)
              some_bytes fits (omega arith) before.idle)
            λ (code, r) (done, idle). returns (
              done,
              record {
                idle = idle;
                bytes =
                    write_mirror-bytes start size s.mirror some_bytes buf fits (omega arith)
                      (data_init-bytes block size small) before.bytes;
              },
              refl,
            ))

    pub do_read_and_comparison-Passed :
        (start size : ℕ) (s : Session)
        → IsInArena start size
        → IsMirrored host s
        → Returns h (Passed host s.randoms) (do_read_and_comparison libc driver start size s)
    unfolding do_read_and_comparison
    do_read_and_comparison-Passed start size s (some_bytes, low, high) before =
        let (from_mirror, got, _) = allocating s.mallocs size in
        let (from_device, got', _) = allocating (s.mallocs + 1) size in
        rw (got, got', do_read_and_comparison)
          (bind
            (correct.reads from_device start size s.mirror s.rig before.bytes some_bytes
              (omega arith) (omega arith) before.idle)
            λ (code, b, r) (done, same, idle). returns (
              verdict-read_mirror code b from_device from_mirror s.mirror start size (omega arith)
                  done same,
              record { idle = idle; bytes = before.bytes },
              refl,
            ))
