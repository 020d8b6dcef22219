-- ===== src/Driver/Foxtrot/Five.antt =====
-- The interpreter of foxtrot_1 (driver/foxtrot/foxtrot_1.c): its intended bug is that it copies and runs
-- five instructions, however many the operation has.
use v_spells_nand_use_case.Prelude.{
  ℕ, zero, suc, ◌≤◌, ◌<◌, ◌≡◌, ◌∙◌, refl, sym, ap, arith, Bytes, Option, none, some, List, [], ◌∷◌,
  ◌++◌,
}
use v_spells_nand_use_case.Outcome.{Outcome, ok, stop, invalid_access, ◌>>=◌}
use v_spells_nand_use_case.Outcome.Laws.{same_rest}
use v_spells_nand_use_case.Host.{Host}
use v_spells_nand_use_case.Device.Rig.{Rig}
use v_spells_nand_use_case.Device.Constants.{ioreg_command}
use v_spells_nand_use_case.Driver.Interface.{
  Code, success, failure, NandOpInstr, cmd_instr, addr_instr, data_in_instr, data_out_instr,
  waitrdy_instr,
}
use v_spells_nand_use_case.Driver.Registers.{nand_set_register}
use v_spells_nand_use_case.Driver.Alpha.{nand_wait, nand_read, nand_program}
use v_spells_nand_use_case.Driver.Foxtrot.{send_all, exec_op}
use v_spells_nand_use_case.Framework.ExecOp.{length, num_blocks_of, erase_operation, exec_erase}
use v_spells_nand_use_case.Framework.ExecOp.Laws.{exec_erase-submits, erase_instrs-length}
use v_spells_nand_use_case.Driver.Foxtrot.Paths.{some_injective}

abbrev pub instruction_size : ℕ
instruction_size = 5

-- `memcpy` of `n` instructions, which the array has to have
unfoldable pub copy_instrs : ℕ → List NandOpInstr → Option (List NandOpInstr)
copy_instrs zero is = some []
copy_instrs (suc n) [] = none
copy_instrs (suc n) (x ∷ is) = elim (copy_instrs n is) [ none ↦ none | some rest ↦ some (x ∷ rest) ]

-- The loop over the copies is that of foxtrot_0 over an operation.
unfoldable pub five_exec_op : Host → List NandOpInstr → Bytes → Rig → Outcome (Code × Bytes × Rig)
unfolding copy_instrs exec_op
five_exec_op h is buffer r = elim (copy_instrs instruction_size is) [
  | none ↦ stop invalid_access
  | some instructions ↦ exec_op h instructions buffer r
]

-- a result, and what follows a success
abbrev pub followed_by :
    (Bytes → Rig → Outcome (Code × Bytes × Rig)) → Code × Bytes × Rig → Outcome (Code × Bytes × Rig)
followed_by rest (failure, b, t) = ok (failure, b, t)
followed_by rest (success, b, t) = rest b t

after_wait :
    (code : Code) (buffer : Bytes) (t : Rig)
    (first rest : Bytes → Rig → Outcome (Code × Bytes × Rig)) {whole : Outcome (Code × Bytes × Rig)}
    → whole ≡ (first buffer t >>= followed_by rest)
    → elim code [ failure ↦ ok (failure, buffer, t) | success ↦ whole ] ≡ (
        elim code [ failure ↦ ok (failure, buffer, t) | success ↦ first buffer t ]
        >>= followed_by rest)
after_wait failure buffer t first rest e = refl
after_wait success buffer t first rest e = e

exec_op-++ :
    (h : Host) (xs ys : List NandOpInstr) (buffer : Bytes) (r : Rig)
    → exec_op h (xs ++ ys) buffer r ≡ (exec_op h xs buffer r >>= followed_by (exec_op h ys))
unfolding exec_op
exec_op-++ h [] ys buffer r = refl
exec_op-++ h (cmd_instr opcode ∷ xs) ys buffer r =
    same_rest (nand_set_register h ioreg_command opcode r) _ _ λ t. exec_op-++ h xs ys buffer t
exec_op-++ h (addr_instr addrs ∷ xs) ys buffer r =
    same_rest (send_all h addrs r) _ _ λ t. exec_op-++ h xs ys buffer t
exec_op-++ h (data_in_instr len index ∷ xs) ys buffer r =
    same_rest (nand_program h buffer index len r) _ _ λ t. exec_op-++ h xs ys buffer t
exec_op-++ h (data_out_instr len index ∷ xs) ys buffer r =
    same_rest (nand_read h buffer index len r) _ _ λ (b, t). exec_op-++ h xs ys b t
exec_op-++ h (waitrdy_instr timeout ∷ xs) ys buffer r =
    same_rest (nand_wait h timeout r) _ _ λ (code, t).
      after_wait code buffer t (exec_op h xs) (exec_op h ys) (exec_op-++ h xs ys buffer t)

copied :
    (n : ℕ) (is : List NandOpInstr)
    → n ≤ length is
    → (xs ys : List NandOpInstr) × (copy_instrs n is ≡ some xs) × (length xs ≡ n) × (is ≡ xs ++ ys)
unfolding copy_instrs length
copied zero is h = ([], is, refl, refl, refl)
copied (suc n) [] h = absurd (omega arith)
copied (suc n) (x ∷ is) h =
    let (xs, ys, e, count, f) = copied n is (omega arith) in
    (x ∷ xs, ys, rw e refl, omega arith, rw f refl)

too_few : (n : ℕ) (is : List NandOpInstr) → length is < n → copy_instrs n is ≡ none
unfolding copy_instrs length
too_few zero is h = absurd (omega arith)
too_few (suc n) [] h = refl
too_few (suc n) (x ∷ is) h = rw (too_few n is (omega arith)) refl

five_copied :
    (h : Host) (is first : List NandOpInstr) (buffer : Bytes) (r : Rig)
    → copy_instrs 5 is ≡ some first
    → five_exec_op h is buffer r ≡ exec_op h first buffer r
unfolding five_exec_op
five_copied h is first buffer r e = rw e refl

-- An operation of at least five instructions is what foxtrot_1 runs of it, its first five, followed by what
-- it leaves out.
pub exec_op-five_exec_op :
    (h : Host) (is : List NandOpInstr) (buffer : Bytes) (r : Rig)
    → 5 ≤ length is
    → (first rest : List NandOpInstr) × (is ≡ first ++ rest)
      × (length first ≡ 5)
      × (exec_op h is buffer r ≡ (five_exec_op h is buffer r >>= followed_by (exec_op h rest)))
exec_op-five_exec_op h is buffer r long =
    let (first, rest, e, count, f) = copied 5 is long in
    (
      first,
      rest,
      f,
      count,
      ap (λ l. exec_op h l buffer r) f
          ∙ exec_op-++ h first rest buffer r
          ∙ ap (λ o. o >>= followed_by (exec_op h rest)) (sym (five_copied h is first buffer r e)),
    )

five_exec_op-invalid :
    (h : Host) (is : List NandOpInstr) (buffer : Bytes) (r : Rig)
    → length is < 5
    → five_exec_op h is buffer r ≡ stop invalid_access
unfolding five_exec_op
five_exec_op-invalid h is buffer r short = rw (too_few 5 is short) refl

single_erase-length :
    (offset size : ℕ) {is : List NandOpInstr}
    → num_blocks_of offset size ≡ 1
    → erase_operation offset size ≡ some is
    → length is ≡ 4
unfolding erase_operation
single_erase-length offset size {is} single e =
    let counted = erase_instrs-length (num_blocks_of offset size) in
    ap length (some_injective (sym e)) ∙ omega (arith, counted, single)

-- An erase of a single block has four instructions, and makes foxtrot_1 read behind them.
pub exec_erase-invalid :
    (h : Host) (offset size : ℕ) (r : Rig)
    → num_blocks_of offset size ≡ 1
    → exec_erase (five_exec_op h) offset size r ≡ stop invalid_access
exec_erase-invalid h offset size r single =
    let (is, e, run) = exec_erase-submits (five_exec_op h) offset size r in
    let short : length is < 5 = omega (arith, single_erase-length offset size single e) in
    run ∙ rw (five_exec_op-invalid h is (λ _. 0) r short) refl
