-- ===== src/Device/Constants.antt =====
-- The constants of device/device_emu.h.
use v_spells_nand_use_case.Prelude.{ℕ}

-- IO register offsets
abbrev pub ioreg_command : ℕ
ioreg_command = 0x02

abbrev pub ioreg_address : ℕ
ioreg_address = 0x01

abbrev pub ioreg_data : ℕ
ioreg_data = 0x00

-- commands
abbrev pub c_read_setup : ℕ
c_read_setup = 0x01

abbrev pub c_read_execute : ℕ
c_read_execute = 0x02

abbrev pub c_program_setup : ℕ
c_program_setup = 0x03

abbrev pub c_program_execute : ℕ
c_program_execute = 0x04

abbrev pub c_erase_setup : ℕ
c_erase_setup = 0x05

abbrev pub c_erase_execute : ℕ
c_erase_execute = 0x06

abbrev pub c_dummy : ℕ
c_dummy = 0x07

-- what the status pin shows
abbrev pub device_busy : ℕ
device_busy = 1

abbrev pub device_ready : ℕ
device_ready = 0

-- pins
abbrev pub pn_status : ℕ
pn_status = 0

abbrev pub pn_reset : ℕ
pn_reset = 1

-- storage sizes
abbrev pub num_blocks : ℕ
num_blocks = 256

abbrev pub num_pages : ℕ
num_pages = 256

abbrev pub num_bytes : ℕ
num_bytes = 256

-- durations in microseconds
abbrev pub read_page_duration : ℕ
read_page_duration = 100

abbrev pub write_page_duration : ℕ
write_page_duration = 600

abbrev pub erase_block_duration : ℕ
erase_block_duration = 2000

abbrev pub reset_duration : ℕ
reset_duration = 500
