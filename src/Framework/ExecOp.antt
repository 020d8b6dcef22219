-- ===== src/Framework/ExecOp.antt =====
-- Transfers by an operation for a driver's interpreter (framework/fw_execop.c). The operation is the
-- list of the instructions that the code writes to `operation.instrs`; the assertion compares its
-- length with the count for which `malloc` was called, which does not fail here.
pub mod Laws
use v_spells_nand_use_case.Prelude.{
  ℕ, zero, suc, ◌+◌, ◌-◌, ◌*◌, ◌/◌, ◌%◌, ◌^◌, Bytes, ltb, ◌==◌, if◌then◌else◌, List, [], ◌∷◌,
  Option, none, some,
}
use v_spells_nand_use_case.Outcome.{Outcome, ok, stop, assertion, out_of_fuel, ◌>>=◌}
use v_spells_nand_use_case.Device.Constants.{
  c_read_setup, c_read_execute, c_program_setup, c_program_execute, c_erase_setup, c_erase_execute,
  num_pages, num_bytes,
}
use v_spells_nand_use_case.Device.Rig.{Rig}
use v_spells_nand_use_case.Driver.Interface.{
  timeout_read_page_us, timeout_write_page_us, timeout_erase_block_us, Code, NandOpInstr, cmd_instr,
  addr_instr, data_in_instr, data_out_instr, waitrdy_instr,
}

abbrev pub page_size : ℕ
page_size = num_bytes

abbrev pub block_size : ℕ
block_size = num_pages * page_size

-- `BLOCK(o)`, `PAGE(o)` and `BYTE(o)`
abbrev pub block : ℕ → ℕ
block o = o / block_size

abbrev pub page : ℕ → ℕ
page o = o % block_size / page_size

abbrev pub byte : ℕ → ℕ
byte o = o % page_size

abbrev pub data_xfer_instructions : ℕ
data_xfer_instructions = 3

abbrev pub erase_instructions : ℕ
erase_instructions = 2

unfoldable pub instruction_count_data_xfer : ℕ → ℕ → ℕ
instruction_count_data_xfer byte_addr size =
    let whole = (size + byte_addr) % 2 ^ 32 in
    let count = (2 + data_xfer_instructions * (whole / num_bytes)) % 2 ^ 32 in
    (count + (if whole % num_bytes == 0 then 0 else data_xfer_instructions)) % 2 ^ 32

unfoldable pub instruction_count_erase : ℕ → ℕ
instruction_count_erase num_blocks = (2 + erase_instructions * num_blocks) % 2 ^ 32

abbrev pub length {ℓ} : {A : Type ℓ} → List A → ℕ
length [] = 0
length (x ∷ xs) = suc (length xs)

-- the address instruction of a transfer; each address is an `unsigned char`
abbrev pub addresses : ℕ → NandOpInstr
addresses offset = addr_instr (block offset % 256 ∷ page offset % 256 ∷ byte offset % 256 ∷ [])

abbrev pub size_this_page : ℕ → ℕ → ℕ
size_this_page size_remaining available =
    if ltb size_remaining available then size_remaining else available

-- `while (size_remaining > 0)` of `exec_write`: the instructions that it adds, `none` if the fuel
-- ran out. The assertion in the loop is about its own variables and cannot fail.
unfoldable pub write_instrs : ℕ → (cursor size_remaining available : ℕ) → Option (List NandOpInstr)
write_instrs zero cursor left available = if left == 0 then some [] else none
write_instrs (suc fuel) cursor left available =
    let now = size_this_page left available in
    let rest = write_instrs fuel ((cursor + now) % 2 ^ 32) (left - now) page_size in
    if left == 0 then some [] else elim rest [
      | none ↦ none
      | some is ↦ some (
          data_in_instr now cursor
          ∷ cmd_instr c_program_execute
          ∷ waitrdy_instr timeout_write_page_us
          ∷ is)
    ]

-- the same of `exec_read`
unfoldable pub read_instrs : ℕ → (cursor size_remaining available : ℕ) → Option (List NandOpInstr)
read_instrs zero cursor left available = if left == 0 then some [] else none
read_instrs (suc fuel) cursor left available =
    let now = size_this_page left available in
    let rest = read_instrs fuel ((cursor + now) % 2 ^ 32) (left - now) page_size in
    if left == 0 then some [] else elim rest [
      | none ↦ none
      | some is ↦ some (
          cmd_instr c_read_execute
          ∷ waitrdy_instr timeout_read_page_us
          ∷ data_out_instr now cursor
          ∷ is)
    ]

-- `for (b = 0; b < num_blocks; b++)` of `exec_erase`
unfoldable pub erase_instrs : ℕ → List NandOpInstr
erase_instrs zero = []
erase_instrs (suc left) =
    cmd_instr c_erase_execute ∷ waitrdy_instr timeout_erase_block_us ∷ erase_instrs left

-- `exec_op` of the driver: the operation, the caller's buffer and the rig
abbrev pub Interpreter : Type 0
Interpreter = List NandOpInstr → Bytes → Rig → Outcome (Code × Bytes × Rig)

-- the assertion on the count, and then the operation's run
unfoldable pub submit :
    Interpreter → ℕ → Option (List NandOpInstr) → Bytes → Rig → Outcome (Code × Bytes × Rig)
submit exec_op count none buffer r = stop out_of_fuel
submit exec_op count (some instrs) buffer r =
    if length instrs % 2 ^ 32 == count then exec_op instrs buffer r else stop assertion

abbrev pub prefixed :
    NandOpInstr → NandOpInstr → Option (List NandOpInstr) → Option (List NandOpInstr)
prefixed i j none = none
prefixed i j (some is) = some (i ∷ j ∷ is)

unfoldable pub write_operation : ℕ → ℕ → Option (List NandOpInstr)
unfolding write_instrs
write_operation offset size =
    prefixed (cmd_instr c_program_setup) (addresses offset)
      (write_instrs size 0 size (page_size - byte offset))

unfoldable pub read_operation : ℕ → ℕ → Option (List NandOpInstr)
unfolding read_instrs
read_operation offset size =
    prefixed (cmd_instr c_read_setup) (addresses offset)
      (read_instrs size 0 size (page_size - byte offset))

-- how many blocks `size` bytes from `offset` on touch
abbrev pub num_blocks_of : ℕ → ℕ → ℕ
num_blocks_of offset size =
    let whole = (size + offset % block_size) % 2 ^ 32 in
    whole / block_size + (if whole % block_size == 0 then 0 else 1)

unfoldable pub erase_operation : ℕ → ℕ → Option (List NandOpInstr)
unfolding erase_instrs
erase_operation offset size = some (
    cmd_instr c_erase_setup
    ∷ addr_instr (offset / block_size % 256 ∷ [])
    ∷ erase_instrs (num_blocks_of offset size))

unfoldable pub exec_write : Interpreter → Bytes → ℕ → ℕ → Rig → Outcome (Code × Rig)
unfolding submit write_operation instruction_count_data_xfer
exec_write exec_op buffer offset size r = do
  (code, _, r) ←
      submit exec_op (instruction_count_data_xfer (byte offset) size) (write_operation offset size)
        buffer r
  ok (code, r)

unfoldable pub exec_read : Interpreter → Bytes → ℕ → ℕ → Rig → Outcome (Code × Bytes × Rig)
unfolding submit read_operation instruction_count_data_xfer
exec_read exec_op buffer offset size r =
    submit exec_op (instruction_count_data_xfer (byte offset) size) (read_operation offset size)
      buffer r

-- An erase has no buffer; the operation has no instruction that would touch one.
unfoldable pub exec_erase : Interpreter → ℕ → ℕ → Rig → Outcome (Code × Rig)
unfolding submit erase_operation instruction_count_erase
exec_erase exec_op offset size r = do
  (code, _, r) ←
      submit exec_op (instruction_count_erase (num_blocks_of offset size))
        (erase_operation offset size) (λ _. 0) r
  ok (code, r)
