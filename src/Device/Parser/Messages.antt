-- ===== src/Device/Parser/Messages.antt =====
-- The IO register word as three bytes (device/device_emu.h, device/de_ioregs.h): a byte stored at an
-- offset is the field that the parser reads there.
use v_spells_nand_use_case.Prelude.{
  ℕ, ◌+◌, ◌*◌, ◌/◌, ◌%◌, ◌^◌, ◌<◌, ◌≡◌, arith, bit_and, bit_or, mask_byte_0, mask_byte_1,
  mask_byte_2, bit_or-add,
}
use v_spells_nand_use_case.Device.IoRegs.{mask_data}
use v_spells_nand_use_case.Device.Parser.{command_of, address_of, dummy_word}

-- `*((unsigned char *)driver_ioregister + offset) = value`, on the little-endian word
abbrev pub set_byte : ℕ → ℕ → ℕ → ℕ
set_byte word offset value =
    word / 256 ^ (offset + 1) * 256 ^ (offset + 1) + value * 256 ^ offset + word % 256 ^ offset

-- `*((unsigned char *)driver_ioregister + offset)`
abbrev pub get_byte : ℕ → ℕ → ℕ
get_byte word offset = word / 256 ^ offset % 256

pub command_lem : (word : ℕ) → command_of (word % 2 ^ 32) ≡ get_byte word 2
command_lem word = omega (arith, mask_byte_2 (word % 2 ^ 32))

pub address_lem : (word : ℕ) → address_of (word % 2 ^ 32) ≡ get_byte word 1
address_lem word = omega (arith, mask_byte_1 (word % 2 ^ 32))

pub data_lem : (word : ℕ) → bit_and (word % 2 ^ 32) mask_data ≡ get_byte word 0
data_lem word = omega (arith, mask_byte_0 (word % 2 ^ 32))

pub dummy_byte : (v : ℕ) → v < 256 → bit_or dummy_word v ≡ dummy_word + v
dummy_byte v h = bit_or-add 16 7 v (omega arith)

-- what each offset then holds
pub set_command :
    (word v : ℕ)
    → v < 256
    → (get_byte (set_byte word 2 v) 2 ≡ v)
      × (get_byte (set_byte word 2 v) 1 ≡ get_byte word 1)
      × (get_byte (set_byte word 2 v) 0 ≡ get_byte word 0)
set_command word v h = omega arith

pub set_address :
    (word v : ℕ)
    → v < 256
    → (get_byte (set_byte word 1 v) 2 ≡ get_byte word 2)
      × (get_byte (set_byte word 1 v) 1 ≡ v)
      × (get_byte (set_byte word 1 v) 0 ≡ get_byte word 0)
set_address word v h = omega arith

pub set_data :
    (word v : ℕ)
    → v < 256
    → (get_byte (set_byte word 0 v) 2 ≡ get_byte word 2)
      × (get_byte (set_byte word 0 v) 1 ≡ get_byte word 1)
      × (get_byte (set_byte word 0 v) 0 ≡ v)
set_data word v h = omega arith
