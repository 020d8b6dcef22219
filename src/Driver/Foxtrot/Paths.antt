-- ===== src/Driver/Foxtrot/Paths.antt =====
-- The two ways through the framework come to the same: an operation that foxtrot_0 interprets makes the
-- calls that the framework makes by the jump table of alpha_0.
use v_spells_nand_use_case.Prelude.{
  ℕ, zero, suc, ◌+◌, ◌-◌, ◌/◌, ◌%◌, ◌^◌, ◌≤◌, ◌<◌, ◌≡◌, refl, ap, ◌∙◌, sym, subst, arith, Bytes,
  List, [], ◌∷◌, Option, some, inl, inr, Bool-cases, ◌==◌, ◌⊎◌,
}
use v_spells_nand_use_case.Outcome.{Outcome, ok, stop, ◌>>=◌}
use v_spells_nand_use_case.Outcome.Laws.{rest_eq, same_rest, return_value}
use v_spells_nand_use_case.Host.{Host}
use v_spells_nand_use_case.Device.Rig.{Rig}
use v_spells_nand_use_case.Driver.Interface.{
  Code, success, failure, NandOpInstr, cmd_instr, addr_instr, data_in_instr, waitrdy_instr,
}
use v_spells_nand_use_case.Driver.Registers.{nand_set_register}
use v_spells_nand_use_case.Driver.Alpha.{table, nand_wait, nand_program}
use v_spells_nand_use_case.Driver.Foxtrot.{send_all, exec_op}
use v_spells_nand_use_case.Framework.JumpTable.{
  chunk, send_addresses, write_loop, jt_write, block_count, erase_loop, jt_erase,
}
use v_spells_nand_use_case.Framework.ExecOp.{
  addresses, block, page, byte, size_this_page, write_instrs, erase_instrs, write_operation,
  erase_operation, exec_write, exec_erase,
}
use v_spells_nand_use_case.Framework.ExecOp.Laws.{exec_write-submits, exec_erase-submits}

pub chunk-size_this_page :
    (byte_addr left : ℕ)
    → byte_addr < 256
    → chunk byte_addr left ≡ size_this_page left (256 - byte_addr)
chunk-size_this_page byte_addr left h = ground arith

pub some_injective : {A : Type 0} {a b : A} → some a ≡ some b → a ≡ b
some_injective e = cc

pub send_all-send_addresses :
    (h : Host) (offset : ℕ) (r : Rig)
    → send_all h (block offset % 256 ∷ page offset % 256 ∷ byte offset % 256 ∷ []) r
      ≡ send_addresses (table h) offset r
unfolding send_all send_addresses
send_all-send_addresses h offset r =
    let e : page offset % 256 ≡ offset / 256 % 256 = omega arith in
    subst
      (λ p.
        send_all h (block offset % 256 ∷ p ∷ byte offset % 256 ∷ []) r
        ≡ send_addresses (table h) offset r)
      (sym e)
      (rest_eq (nand_set_register h 1 (block offset % 256) r) λ t.
        rest_eq (nand_set_register h 1 (offset / 256 % 256) t)
          λ u. return_value (nand_set_register h 1 (byte offset % 256) u))

module _ (h : Host) (buffer : Bytes) where
  abbrev with_buffer : Code × Rig → Outcome (Code × Bytes × Rig)
  with_buffer (code, t) = ok (code, buffer, t)

  -- The instructions are there, and run as the loop over the jump table.
  abbrev RunsAs : Option (List NandOpInstr) → (Rig → Outcome (Code × Rig)) → Type 0
  RunsAs instrs loop =
      (is : List NandOpInstr) × (instrs ≡ some is)
      × ((r : Rig) → exec_op h is buffer r ≡ (loop r >>= with_buffer))

  write_nothing :
      (left : ℕ) (loop : Rig → Outcome (Code × Rig))
      → ((r : Rig) → loop r ≡ ok (success, r))
      → RunsAs (some []) loop
  unfolding exec_op
  write_nothing left loop e = ([], refl, λ r. rw (e r) refl)

  after_wait :
      (timeout : ℕ) (is : List NandOpInstr) (loop : Rig → Outcome (Code × Rig)) (r : Rig)
      → ((t : Rig) → exec_op h is buffer t ≡ (loop t >>= with_buffer))
      → exec_op h (waitrdy_instr timeout ∷ is) buffer r ≡ (
          (nand_wait h timeout r >>= λ (code, t). elim code [
            | failure ↦ ok (failure, t)
            | success ↦ loop t
          ])
          >>= with_buffer)
  unfolding exec_op
  after_wait timeout is loop r runs =
      same_rest (nand_wait h timeout r) _ with_buffer λ (code, t). each code t
    where
      each :
          (code : Code) (t : Rig)
          → (elim code [ failure ↦ ok (failure, buffer, t) | success ↦ exec_op h is buffer t ])
            ≡ (elim code [ failure ↦ ok (failure, t) | success ↦ loop t ] >>= with_buffer)
      each failure t = refl
      each success t = runs t

  -- the three instructions of a page; `c` is the size as the jump table's loop computes it
  write_page :
      (now c cursor : ℕ) (is : List NandOpInstr) (loop : ℕ → Rig → Outcome (Code × Rig))
      → c ≡ now
      → ((t : Rig) → exec_op h is buffer t ≡ (loop now t >>= with_buffer))
      → (r : Rig)
      → exec_op h (data_in_instr now cursor ∷ cmd_instr 4 ∷ waitrdy_instr 625 ∷ is) buffer r ≡ (
          (nand_program h buffer cursor c r >>= λ t. nand_set_register h 2 4 t >>= λ t.
          nand_wait h 625 t >>= λ (code, t). elim code [
            | failure ↦ ok (failure, t)
            | success ↦ loop c t
          ])
          >>= with_buffer)
  unfolding exec_op
  write_page now c cursor is loop e runs r =
      subst
        (λ n.
          exec_op h (data_in_instr now cursor ∷ cmd_instr 4 ∷ waitrdy_instr 625 ∷ is) buffer r ≡ (
            (nand_program h buffer cursor n r >>= λ t. nand_set_register h 2 4 t >>= λ t.
            nand_wait h 625 t >>= λ (code, t). elim code [
              | failure ↦ ok (failure, t)
              | success ↦ loop n t
            ])
            >>= with_buffer))
        (sym e)
        (same_rest (nand_program h buffer cursor now r) _ with_buffer λ t.
          same_rest (nand_set_register h 2 4 t) _ with_buffer
            λ u. after_wait 625 is (loop now) u runs)

  write_loop-RunsAs :
      (fuel byte_addr cursor left available : ℕ)
      → left ≤ fuel
      → byte_addr < 256
      → available ≡ 256 - byte_addr
      → RunsAs
          (write_instrs fuel cursor left available)
          (write_loop (table h) buffer fuel byte_addr cursor left)
  unfolding write_loop write_instrs exec_op
  write_loop-RunsAs zero byte_addr cursor left available enough small ea =
      let e : left ≡ 0 = omega arith in rw e (write_nothing 0 _ λ r. refl)
  write_loop-RunsAs (suc fuel) byte_addr cursor left available enough small ea =
      elim (Bool-cases (left == 0)) [
        | inl empty ↦ let e : left ≡ 0 = ground arith in rw e (write_nothing 0 _ λ r. refl)
        | inr more ↦
            let now = size_this_page left available in
            let same : chunk byte_addr left ≡ now =
              chunk-size_this_page byte_addr left small ∙ ground arith in
            let (is, e, runs) =
              write_loop-RunsAs fuel 0 ((cursor + now) % 2 ^ 32) (left - now) 256 (ground arith)
                (omega arith) (omega arith) in
            rw (more, e)
              (
                _,
                refl,
                write_page now (chunk byte_addr left) cursor is
                    (λ n. write_loop (table h) buffer fuel 0 ((cursor + n) % 2 ^ 32) (left - n))
                    same runs,
              )
      ]

  exec_op-jt_write :
      (offset size : ℕ) (js : List NandOpInstr) (r : Rig)
      → ((t : Rig)
          → exec_op h js buffer t
            ≡ (write_loop (table h) buffer size (offset % 256 % 256) 0 size t >>= with_buffer))
      → exec_op h (cmd_instr 3 ∷ addresses offset ∷ js) buffer r
        ≡ (jt_write (table h) buffer offset size r >>= with_buffer)
  unfolding exec_op jt_write
  exec_op-jt_write offset size js r runs = same_rest (nand_set_register h 2 3 r) _ with_buffer λ t.
      ap (λ o. o >>= λ u. exec_op h js buffer u) (send_all-send_addresses h offset t)
      ∙ same_rest (send_addresses (table h) offset t) _ with_buffer runs

  drop_buffer :
      (o : Outcome (Code × Rig)) → (o >>= with_buffer >>= λ (code, _, t). ok (code, t)) ≡ o
  drop_buffer (ok (code, t)) = refl
  drop_buffer (stop e) = refl

  -- An `exec_write` by foxtrot_0 does what a `jt_write` by alpha_0 does: the same calls of the device, and
  -- the same result. The transfer has a byte or starts at a page, the offset is below 2 ^ 32, and
  -- the size is below 2 ^ 30 - 256.
  pub exec_write-jt_write :
      (offset size : ℕ) (r : Rig)
      → offset < 2 ^ 32
      → size + 256 < 2 ^ 30
      → 0 < size ⊎ byte offset ≡ 0
      → exec_write (exec_op h) buffer offset size r ≡ jt_write (table h) buffer offset size r
  unfolding write_operation
  exec_write-jt_write offset size r fits short proper =
      let (is, e, submitted) =
        exec_write-submits (exec_op h) buffer offset size r fits short proper in
      let (js, ej, runs) =
        write_loop-RunsAs size (offset % 256 % 256) 0 size (256 - byte offset) (omega arith)
          (omega arith) (omega arith) in
      let whole : write_operation offset size ≡ some (cmd_instr 3 ∷ addresses offset ∷ js) =
        rw ej refl in
      let same : is ≡ cmd_instr 3 ∷ addresses offset ∷ js = some_injective (sym e ∙ whole) in
      submitted
      ∙ ap (λ l. exec_op h l buffer r >>= λ (code, _, t). ok (code, t)) same
      ∙ ap (λ o. o >>= λ (code, _, t). ok (code, t)) (exec_op-jt_write offset size js r runs)
      ∙ drop_buffer (jt_write (table h) buffer offset size r)

  erase_loop-RunsAs :
      (n : ℕ) (r : Rig)
      → exec_op h (erase_instrs n) buffer r ≡ (erase_loop (table h) n r >>= with_buffer)
  unfolding exec_op erase_instrs erase_loop
  erase_loop-RunsAs zero r = refl
  erase_loop-RunsAs (suc n) r =
      same_rest (nand_set_register h 2 6 r) _ with_buffer
        λ t. after_wait 2025 (erase_instrs n) (erase_loop (table h) n) t (erase_loop-RunsAs n)

  exec_op-jt_erase :
      (offset size : ℕ) (r : Rig)
      → exec_op h
          (cmd_instr 5
            ∷ addr_instr (offset / 65536 % 256 ∷ [])
            ∷ erase_instrs (block_count offset size))
          buffer
          r
        ≡ (jt_erase (table h) offset size r >>= with_buffer)
  unfolding exec_op send_all jt_erase
  exec_op-jt_erase offset size r = same_rest (nand_set_register h 2 5 r) _ with_buffer λ t.
      ap (λ o. o >>= λ u. exec_op h (erase_instrs (block_count offset size)) buffer u)
        (return_value (nand_set_register h 1 (offset / 65536 % 256) t))
      ∙ same_rest (nand_set_register h 1 (offset / 65536 % 256) t) _ with_buffer
          (erase_loop-RunsAs (block_count offset size))

-- An `exec_erase` by foxtrot_0 does what a `jt_erase` by alpha_0 does: the same calls of the device, and the
-- same result.
pub exec_erase-jt_erase :
    (h : Host) (offset size : ℕ) (r : Rig)
    → exec_erase (exec_op h) offset size r ≡ jt_erase (table h) offset size r
unfolding erase_operation
exec_erase-jt_erase h offset size r =
    let (is, e, submitted) = exec_erase-submits (exec_op h) offset size r in
    submitted
    ∙ ap (λ l. exec_op h l (λ _. 0) r >>= λ (code, _, t). ok (code, t)) (some_injective (sym e))
    ∙ ap (λ o. o >>= λ (code, _, t). ok (code, t)) (exec_op-jt_erase h (λ _. 0) offset size r)
    ∙ drop_buffer h (λ _. 0) (jt_erase (table h) offset size r)
