-- ===== src/Framework/ExecOp/Laws.antt =====
-- The operations of framework/fw_execop.c have as many instructions as were allocated for them, so
-- their assertion holds, but for an empty transfer that does not start at a page.
use v_spells_nand_use_case.Prelude.{
  ℕ, zero, suc, ◌+◌, ◌-◌, ◌*◌, ◌/◌, ◌%◌, ◌^◌, ◌≤◌, ◌<◌, ◌≡◌, ◌≢◌, refl, ap, arith, Bytes, ◌==◌,
  if◌then◌else◌, List, [], true, Option, some, ◌⊎◌, inl, inr, Bool-cases,
}
use v_spells_nand_use_case.Outcome.{ok, stop, assertion, ◌>>=◌}
use v_spells_nand_use_case.Device.Rig.{Rig}
use v_spells_nand_use_case.Framework.ExecOp.{
  byte, Interpreter, length, size_this_page, instruction_count_data_xfer, instruction_count_erase,
  write_instrs, read_instrs, erase_instrs, submit, num_blocks_of, write_operation, read_operation,
  erase_operation, exec_write, exec_read, exec_erase,
}
use v_spells_nand_use_case.Driver.Interface.{NandOpInstr}

-- how many pages `left` bytes touch, where the first has `available` places left
abbrev page_count : ℕ → ℕ → ℕ
page_count left available = if left == 0 then 0 else (left + (256 - available) + 255) / 256

page_count_step :
    (left available : ℕ)
    → 0 < left
    → 0 < available
    → available ≤ 256
    → (left + (256 - available) + 255) / 256
      ≡ page_count (left - size_this_page left available) 256 + 1
page_count_step left available some_left room whole = ground arith

-- a list of three instructions for each page
abbrev Trios : ℕ → ℕ → Option (List NandOpInstr) → Type 0
Trios left available instrs =
    (is : List NandOpInstr) × (instrs ≡ some is) × (length is ≡ 3 * page_count left available)

none_left : (left available : ℕ) → left ≡ 0 → Trios left available (some [])
none_left left available e = ([], refl, ground arith)

write_instrs-Trios :
    (fuel cursor left available : ℕ)
    → left ≤ fuel
    → 0 < available
    → available ≤ 256
    → Trios left available (write_instrs fuel cursor left available)
unfolding write_instrs
write_instrs-Trios zero cursor left available enough room whole =
    let e : left ≡ 0 = omega arith in rw e (none_left 0 available refl)
write_instrs-Trios (suc fuel) cursor left available enough room whole =
    elim (Bool-cases (left == 0)) [
      | inl empty ↦ let e : left ≡ 0 = ground arith in rw e (none_left 0 available refl)
      | inr more ↦
          let now = size_this_page left available in
          let some_left : 0 < left = ground arith in
          let (is, e, count) =
            write_instrs-Trios fuel ((cursor + now) % 2 ^ 32) (left - now) 256 (ground arith)
              (omega arith) (omega arith) in
          rw (more, e)
            (_, refl, omega (arith, count, page_count_step left available some_left room whole))
    ]

read_instrs-Trios :
    (fuel cursor left available : ℕ)
    → left ≤ fuel
    → 0 < available
    → available ≤ 256
    → Trios left available (read_instrs fuel cursor left available)
unfolding read_instrs
read_instrs-Trios zero cursor left available enough room whole =
    let e : left ≡ 0 = omega arith in rw e (none_left 0 available refl)
read_instrs-Trios (suc fuel) cursor left available enough room whole =
    elim (Bool-cases (left == 0)) [
      | inl empty ↦ let e : left ≡ 0 = ground arith in rw e (none_left 0 available refl)
      | inr more ↦
          let now = size_this_page left available in
          let some_left : 0 < left = ground arith in
          let (is, e, count) =
            read_instrs-Trios fuel ((cursor + now) % 2 ^ 32) (left - now) 256 (ground arith)
              (omega arith) (omega arith) in
          rw (more, e)
            (_, refl, omega (arith, count, page_count_step left available some_left room whole))
    ]

-- what was allocated for a transfer, where it has a byte or starts at a page
count_lem :
    (offset size : ℕ)
    → offset < 2 ^ 32
    → size + 256 < 2 ^ 30
    → 0 < size ⊎ byte offset ≡ 0
    → instruction_count_data_xfer (byte offset) size ≡ 2 + 3 * page_count size (256 - byte offset)
unfolding instruction_count_data_xfer
count_lem offset size fits short (inl some_bytes) = ground arith
count_lem offset size fits short (inr aligned) = ground arith

count_small : (offset size : ℕ) → instruction_count_data_xfer (byte offset) size < 2 ^ 32
unfolding instruction_count_data_xfer
count_small offset size = omega arith

pub erase_instrs-length : (n : ℕ) → length (erase_instrs n) ≡ 2 * n
unfolding erase_instrs
erase_instrs-length zero = refl
erase_instrs-length (suc n) = omega (arith, erase_instrs-length n)

submit_run :
    (exec_op : Interpreter) (count : ℕ) (is : List NandOpInstr) (buffer : Bytes) (r : Rig)
    → length is ≡ count
    → count < 2 ^ 32
    → submit exec_op count (some is) buffer r ≡ exec_op is buffer r
unfolding submit
submit_run exec_op count is buffer r e short =
    let same : (length is % 2 ^ 32 == count) ≡ true = ground arith in rw same refl

module _ (exec_op : Interpreter) (buffer : Bytes) (offset size : ℕ) (r : Rig)
    (fits : offset < 2 ^ 32) (short : size + 256 < 2 ^ 30) where
  -- `exec_write` with bytes to write, or from the start of a page, builds its operation, passes its
  -- assertion on the instruction count, and is then the driver's run of the operation. The offset and
  -- the size are `unsigned int`, the size below 2 ^ 30 - 256.
  pub exec_write-submits :
      0 < size ⊎ byte offset ≡ 0
      → (is : List NandOpInstr) × (write_operation offset size ≡ some is)
        × (exec_write exec_op buffer offset size r
            ≡ (exec_op is buffer r >>= λ (code, _, t). ok (code, t)))
  unfolding exec_write write_operation
  exec_write-submits proper =
      let (is, e, count) =
        write_instrs-Trios size 0 size (256 - byte offset) (omega arith) (omega arith)
          (omega arith) in
      rw e (
        _,
        refl,
        ap (λ o. o >>= λ (code, _, t). ok (code, t))
            (submit_run exec_op _ _ buffer r
              (omega (arith, count, count_lem offset size fits short proper))
              (count_small offset size)),
      )

  -- `exec_read`, likewise, is the driver's run of its operation.
  pub exec_read-submits :
      0 < size ⊎ byte offset ≡ 0
      → (is : List NandOpInstr) × (read_operation offset size ≡ some is)
        × (exec_read exec_op buffer offset size r ≡ exec_op is buffer r)
  unfolding exec_read read_operation
  exec_read-submits proper =
      let (is, e, count) =
        read_instrs-Trios size 0 size (256 - byte offset) (omega arith) (omega arith)
          (omega arith) in
      rw e (
        _,
        refl,
        submit_run exec_op _ _ buffer r
            (omega (arith, count, count_lem offset size fits short proper))
            (count_small offset size),
      )

num_blocks_small : (offset size : ℕ) → num_blocks_of offset size ≤ 65536
num_blocks_small offset size = ground arith

-- `exec_erase` always passes its assertion on the instruction count and is then the driver's run of its
-- operation. The size and the offset may be any numbers.
pub exec_erase-submits :
    (exec_op : Interpreter) (offset size : ℕ) (r : Rig)
    → (is : List NandOpInstr) × (erase_operation offset size ≡ some is)
      × (exec_erase exec_op offset size r
          ≡ (exec_op is (λ _. 0) r >>= λ (code, _, t). ok (code, t)))
unfolding exec_erase erase_operation instruction_count_erase
exec_erase-submits exec_op offset size r = (
  _,
  refl,
  ap (λ o. o >>= λ (code, _, t). ok (code, t))
      (submit_run exec_op _ _ (λ _. 0) r
        (omega
          (arith, erase_instrs-length (num_blocks_of offset size), num_blocks_small offset size))
        (omega arith)),
)

-- An empty transfer that does not start at a page fails the assertion on the instruction count, in
-- `exec_write` and in `exec_read`, whatever the driver.
pub empty_transfer-assertion :
    (exec_op : Interpreter) (buffer : Bytes) (offset : ℕ) (r : Rig)
    → byte offset ≢ 0
    → (exec_write exec_op buffer offset 0 r ≡ stop assertion)
      × (exec_read exec_op buffer offset 0 r ≡ stop assertion)
unfolding exec_write exec_read write_operation read_operation instruction_count_data_xfer submit
    write_instrs read_instrs
empty_transfer-assertion exec_op buffer offset r unaligned =
    let five : instruction_count_data_xfer (byte offset) 0 ≡ 5 = ground arith in
    (rw five refl, rw five refl)
