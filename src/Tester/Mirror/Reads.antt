-- ===== src/Tester/Mirror/Reads.antt =====
-- What the mirror gives back (tester/st_mirror.c): the bytes that were written, and zeroes after an erase.
use v_spells_nand_use_case.Prelude.{ℕ, ◌+◌, ◌-◌, ◌*◌, ◌%◌, ◌^◌, ◌≤◌, ◌<◌, ◌≡◌, ◌∙◌, arith, Bytes}
use v_spells_nand_use_case.Device.Store.Laws.{storage_size}
use v_spells_nand_use_case.Framework.JumpTable.{block_count}
use v_spells_nand_use_case.Tester.Mirror.{write_mirror, erase_mirror, read_mirror}
use v_spells_nand_use_case.Tester.Mirror.Refines.{
  write_mirror-written, erase_mirror-erased, read_mirror-taken,
}
use v_spells_nand_use_case.Transfer.Fetch.{from}
use v_spells_nand_use_case.Transfer.Read.{taken}
use v_spells_nand_use_case.Transfer.RoundTrip.{written_byte, from_written}
use v_spells_nand_use_case.Transfer.Written.{pages_size}

taken_from :
    (m buffer : Bytes) (offset size i : ℕ)
    → i < size
    → taken buffer 0 size (from m (offset % storage_size)) i ≡ m ((offset + i) % storage_size)
taken_from m buffer offset size i inside =
    let place : (offset % storage_size + (i - 0)) % storage_size ≡ (offset + i) % storage_size =
      omega arith in
    rw place (ground arith)

pub read_mirror-at :
    (m buffer : Bytes) (offset size i : ℕ)
    → size < 2 ^ 32
    → i < size
    → read_mirror m buffer offset size i ≡ m ((offset + i) % storage_size)
read_mirror-at m buffer offset size i short inside =
    read_mirror-taken buffer m offset size i short ∙ taken_from m buffer offset size i inside

module _ (offset size : ℕ) (m : Bytes) (some_bytes : 0 < size) where
  module _ (buffer : Bytes) (fits : pages_size offset size ≤ storage_size)
      (no_wrap : offset + size + 255 < 2 ^ 32) where
    pub write_mirror-bytes :
        ((i : ℕ) → buffer i < 256)
        → ((i : ℕ) → m i < 256)
        → (i : ℕ) → write_mirror buffer offset size m i < 256
    write_mirror-bytes small bytes i =
        rw (write_mirror-written buffer offset size m some_bytes fits no_wrap i)
          (written_byte buffer (offset % storage_size) size m i bytes small)

    pub read_mirror-write_mirror :
        (into : Bytes) (i : ℕ)
        → i < size
        → read_mirror (write_mirror buffer offset size m) into offset size i ≡ buffer i
    read_mirror-write_mirror into i inside =
        let place : (offset + i) % storage_size ≡ (offset % storage_size + i) % storage_size =
          omega arith in
        read_mirror-at (write_mirror buffer offset size m) into offset size i (omega arith) inside
        ∙ write_mirror-written buffer offset size m some_bytes fits no_wrap
            ((offset + i) % storage_size)
        ∙ rw place (
            from_written buffer (offset % storage_size) size m i (omega arith) (omega arith) inside)

  module _ (fits : block_count offset size * 65536 ≤ storage_size)
      (no_wrap : offset + size + 65535 < 2 ^ 32) where
    pub erase_mirror-bytes : ((i : ℕ) → m i < 256) → (i : ℕ) → erase_mirror offset size m i < 256
    erase_mirror-bytes bytes i =
        rw (erase_mirror-erased offset size m i some_bytes fits no_wrap) (ground (arith, bytes i))

    pub read_mirror-erase_mirror :
        (into : Bytes) (i : ℕ)
        → i < size
        → read_mirror (erase_mirror offset size m) into offset size i ≡ 0
    read_mirror-erase_mirror into i inside =
        read_mirror-at (erase_mirror offset size m) into offset size i (omega arith) inside
        ∙ erase_mirror-erased offset size m ((offset + i) % storage_size) some_bytes fits no_wrap
        ∙ ground arith
