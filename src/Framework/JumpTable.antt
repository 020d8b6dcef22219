-- ===== src/Framework/JumpTable.antt =====
-- Transfers by a jump table (framework/fw_jumptable.c). The loops take fuel: `size` rounds, since each
-- transfers at least a byte. `unsigned int` arithmetic wraps at 2 ^ 32.
use v_spells_nand_use_case.Prelude.{
  ℕ, zero, suc, ◌+◌, ◌-◌, ◌*◌, ◌/◌, ◌%◌, ◌^◌, Bytes, ◌&&◌, ltb, ◌==◌, if◌then◌else◌,
}
use v_spells_nand_use_case.Outcome.{Outcome, ok, stop, out_of_fuel, ◌>>=◌}
use v_spells_nand_use_case.Device.Constants.{
  ioreg_command, ioreg_address, c_read_setup, c_read_execute, c_program_setup, c_program_execute,
  c_erase_setup, c_erase_execute, num_pages, num_bytes,
}
use v_spells_nand_use_case.Device.Rig.{Rig}
use v_spells_nand_use_case.Driver.Interface.{
  timeout_read_page_us, timeout_write_page_us, timeout_erase_block_us, Code, success, failure,
  JumpTable,
}

abbrev pub block_size : ℕ
block_size = num_pages * num_bytes

-- the parts of an offset, each an `unsigned char`
abbrev pub byte_addr_of : ℕ → ℕ
byte_addr_of offset = offset % num_bytes % 256

abbrev pub page_addr_of : ℕ → ℕ
page_addr_of offset = offset / num_pages % 256

abbrev pub block_addr_of : ℕ → ℕ
block_addr_of offset = offset / block_size % 256

-- how much of `bytes_left` goes to the current page
abbrev pub chunk : ℕ → ℕ → ℕ
chunk byte_addr bytes_left =
    let room = if byte_addr == 0 then num_bytes else num_bytes - byte_addr in
    if ltb bytes_left num_bytes && ltb bytes_left room then bytes_left else room

-- the three addresses that follow a setup command
unfoldable pub send_addresses : JumpTable → ℕ → Rig → Outcome Rig
send_addresses jt offset r = do
  r ← jt.set_register ioreg_address (block_addr_of offset) r
  r ← jt.set_register ioreg_address (page_addr_of offset) r
  jt.set_register ioreg_address (byte_addr_of offset) r

-- `while (bytes_left)` of `jt_write`
unfoldable pub write_loop :
    JumpTable → Bytes → ℕ → (byte_addr cursor bytes_left : ℕ) → Rig → Outcome (Code × Rig)
write_loop jt buffer zero byte_addr cursor bytes_left r =
    if bytes_left == 0 then ok (success, r) else stop out_of_fuel
write_loop jt buffer (suc fuel) byte_addr cursor bytes_left r =
    let size_to_write = chunk byte_addr bytes_left in
    let round = jt.write_buffer buffer cursor size_to_write r >>= λ r.
    jt.set_register ioreg_command c_program_execute r >>= λ r.
    jt.wait_ready timeout_write_page_us r >>= λ (code, r). elim code [
      | failure ↦ ok (failure, r)
      | success ↦
          write_loop jt buffer fuel 0 ((cursor + size_to_write) % 2 ^ 32)
            (bytes_left - size_to_write) r
    ] in
    if bytes_left == 0 then ok (success, r) else round

unfoldable pub jt_write : JumpTable → Bytes → ℕ → ℕ → Rig → Outcome (Code × Rig)
unfolding send_addresses
jt_write jt buffer offset size r = do
  r ← jt.set_register ioreg_command c_program_setup r
  r ← send_addresses jt offset r
  write_loop jt buffer size (byte_addr_of offset) 0 size r

-- `while(bytes_left)` of `jt_read`
unfoldable pub read_loop :
    JumpTable → Bytes → ℕ → (byte_addr cursor bytes_left : ℕ) → Rig → Outcome (Code × Bytes × Rig)
read_loop jt buffer zero byte_addr cursor bytes_left r =
    if bytes_left == 0 then ok (success, buffer, r) else stop out_of_fuel
read_loop jt buffer (suc fuel) byte_addr cursor bytes_left r =
    let size_to_read = chunk byte_addr bytes_left in
    let round = jt.set_register ioreg_command c_read_execute r >>= λ r.
    jt.wait_ready timeout_read_page_us r >>= λ (code, r). elim code [
      | failure ↦ ok (failure, buffer, r)
      | success ↦ jt.read_buffer buffer cursor size_to_read r >>= λ (buffer, r).
          read_loop jt buffer fuel 0 ((cursor + size_to_read) % 2 ^ 32) (bytes_left - size_to_read)
            r
    ] in
    if bytes_left == 0 then ok (success, buffer, r) else round

unfoldable pub jt_read : JumpTable → Bytes → ℕ → ℕ → Rig → Outcome (Code × Bytes × Rig)
unfolding send_addresses
jt_read jt buffer offset size r = do
  r ← jt.set_register ioreg_command c_read_setup r
  r ← send_addresses jt offset r
  read_loop jt buffer size (byte_addr_of offset) 0 size r

-- how many blocks `size` bytes from `offset` on touch
abbrev pub block_count : ℕ → ℕ → ℕ
block_count offset size =
    let whole = (size + offset % block_size) % 2 ^ 32 in
    whole / block_size + (if whole % block_size == 0 then 0 else 1)

-- `for (b = 0; b < num_blocks; b++)` of `jt_erase`, by the rounds that are left
unfoldable pub erase_loop : JumpTable → ℕ → Rig → Outcome (Code × Rig)
erase_loop jt zero r = ok (success, r)
erase_loop jt (suc left) r = jt.set_register ioreg_command c_erase_execute r >>= λ r.
    jt.wait_ready timeout_erase_block_us r >>= λ (code, r). elim code [
      | failure ↦ ok (failure, r)
      | success ↦ erase_loop jt left r
    ]

unfoldable pub jt_erase : JumpTable → ℕ → ℕ → Rig → Outcome (Code × Rig)
jt_erase jt offset size r = do
  r ← jt.set_register ioreg_command c_erase_setup r
  r ← jt.set_register ioreg_address (block_addr_of offset) r
  erase_loop jt (block_count offset size) r
