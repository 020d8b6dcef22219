-- ===== src/Driver/Foxtrot/Reads.antt =====
-- An operation that foxtrot_0 interprets reads as the framework does by the jump table of alpha_0.
use v_spells_nand_use_case.Prelude.{
  ℕ, zero, suc, ◌+◌, ◌-◌, ◌%◌, ◌^◌, ◌≤◌, ◌<◌, ◌≡◌, refl, ap, ◌∙◌, sym, subst, arith, Bytes, List,
  [], ◌∷◌, Option, some, inl, inr, Bool-cases, ◌==◌, ◌⊎◌,
}
use v_spells_nand_use_case.Outcome.{Outcome, ok, ◌>>=◌}
use v_spells_nand_use_case.Outcome.Laws.{rest_eq}
use v_spells_nand_use_case.Host.{Host}
use v_spells_nand_use_case.Device.Rig.{Rig}
use v_spells_nand_use_case.Driver.Interface.{
  Code, success, failure, NandOpInstr, cmd_instr, data_out_instr, waitrdy_instr,
}
use v_spells_nand_use_case.Driver.Registers.{nand_set_register}
use v_spells_nand_use_case.Driver.Alpha.{table, nand_wait, nand_read}
use v_spells_nand_use_case.Driver.Foxtrot.{exec_op}
use v_spells_nand_use_case.Driver.Foxtrot.Paths.{
  some_injective, send_all-send_addresses, chunk-size_this_page,
}
use v_spells_nand_use_case.Framework.JumpTable.{chunk, send_addresses, read_loop, jt_read}
use v_spells_nand_use_case.Framework.ExecOp.{
  addresses, byte, size_this_page, read_instrs, read_operation, exec_read,
}
use v_spells_nand_use_case.Framework.ExecOp.Laws.{exec_read-submits}

module _ (h : Host) where
  abbrev Loop : Type 0
  Loop = Bytes → Rig → Outcome (Code × Bytes × Rig)

  -- The instructions are there, and run as the loop over the jump table.
  abbrev ReadsAs : Option (List NandOpInstr) → Loop → Type 0
  ReadsAs instrs loop =
      (is : List NandOpInstr) × (instrs ≡ some is)
      × ((b : Bytes) (r : Rig) → exec_op h is b r ≡ loop b r)

  read_nothing :
      (loop : Loop)
      → ((b : Bytes) (r : Rig) → loop b r ≡ ok (success, b, r))
      → ReadsAs (some []) loop
  unfolding exec_op
  read_nothing loop e = ([], refl, λ b r. sym (e b r))

  -- the round of the jump table's loop for a page of `c` bytes
  abbrev page_round : ℕ → ℕ → (ℕ → Loop) → Loop
  page_round c cursor loop b r = nand_set_register h 2 2 r >>= λ t.
      nand_wait h 125 t >>= λ (code, t). elim code [
        | failure ↦ ok (failure, b, t)
        | success ↦ nand_read h b cursor c t >>= λ (b, t). loop c b t
      ]

  -- the three instructions of a page; `c` is the size as the jump table's loop computes it
  read_page :
      (now c cursor : ℕ) (is : List NandOpInstr) (loop : ℕ → Loop)
      → c ≡ now
      → ((b : Bytes) (t : Rig) → exec_op h is b t ≡ loop now b t)
      → (b : Bytes) (r : Rig)
      → exec_op h (cmd_instr 2 ∷ waitrdy_instr 125 ∷ data_out_instr now cursor ∷ is) b r
        ≡ page_round c cursor loop b r
  unfolding exec_op
  read_page now c cursor is loop e runs b r =
      subst
        (λ n.
          exec_op h (cmd_instr 2 ∷ waitrdy_instr 125 ∷ data_out_instr now cursor ∷ is) b r
          ≡ page_round n cursor loop b r)
        (sym e)
        (rest_eq (nand_set_register h 2 2 r)
          λ t. rest_eq (nand_wait h 125 t) λ (code, u). each code u)
    where
      each :
          (code : Code) (t : Rig)
          → (elim code [
            | failure ↦ ok (failure, b, t)
            | success ↦ nand_read h b cursor now t >>= λ (b, t). exec_op h is b t
          ])
            ≡ (elim code [
              | failure ↦ ok (failure, b, t)
              | success ↦ nand_read h b cursor now t >>= λ (b, t). loop now b t
            ])
      each failure t = refl
      each success t = rest_eq (nand_read h b cursor now t) λ (b', u). runs b' u

  read_loop-ReadsAs :
      (fuel byte_addr cursor left available : ℕ)
      → left ≤ fuel
      → byte_addr < 256
      → available ≡ 256 - byte_addr
      → ReadsAs
          (read_instrs fuel cursor left available)
          (λ b r. read_loop (table h) b fuel byte_addr cursor left r)
  unfolding read_loop read_instrs
  read_loop-ReadsAs zero byte_addr cursor left available enough small ea =
      let e : left ≡ 0 = omega arith in rw e (read_nothing _ λ b r. refl)
  read_loop-ReadsAs (suc fuel) byte_addr cursor left available enough small ea =
      elim (Bool-cases (left == 0)) [
        | inl empty ↦ let e : left ≡ 0 = ground arith in rw e (read_nothing _ λ b r. refl)
        | inr more ↦
            let now = size_this_page left available in
            let same : chunk byte_addr left ≡ now =
              chunk-size_this_page byte_addr left small ∙ ground arith in
            let (is, e, runs) =
              read_loop-ReadsAs fuel 0 ((cursor + now) % 2 ^ 32) (left - now) 256 (ground arith)
                (omega arith) (omega arith) in
            rw (more, e)
              (
                _,
                refl,
                read_page now (chunk byte_addr left) cursor is
                    (λ n b t. read_loop (table h) b fuel 0 ((cursor + n) % 2 ^ 32) (left - n) t)
                    same runs,
              )
      ]

  exec_op-jt_read :
      (buffer : Bytes) (offset size : ℕ) (js : List NandOpInstr) (r : Rig)
      → ((b : Bytes) (t : Rig)
          → exec_op h js b t ≡ read_loop (table h) b size (offset % 256 % 256) 0 size t)
      → exec_op h (cmd_instr 1 ∷ addresses offset ∷ js) buffer r
        ≡ jt_read (table h) buffer offset size r
  unfolding exec_op jt_read
  exec_op-jt_read buffer offset size js r runs = rest_eq (nand_set_register h 2 1 r) λ t.
      ap (λ o. o >>= λ u. exec_op h js buffer u) (send_all-send_addresses h offset t)
      ∙ rest_eq (send_addresses (table h) offset t) λ u. runs buffer u

  -- An `exec_read` by foxtrot_0 does what a `jt_read` by alpha_0 does: the same calls of the device, and
  -- the same result. The transfer has a byte or starts at a page, the offset is below 2 ^ 32, and
  -- the size is below 2 ^ 30 - 256.
  pub exec_read-jt_read :
      (buffer : Bytes) (offset size : ℕ) (r : Rig)
      → offset < 2 ^ 32
      → size + 256 < 2 ^ 30
      → 0 < size ⊎ byte offset ≡ 0
      → exec_read (exec_op h) buffer offset size r ≡ jt_read (table h) buffer offset size r
  unfolding read_operation
  exec_read-jt_read buffer offset size r fits short proper =
      let (is, e, submitted) =
        exec_read-submits (exec_op h) buffer offset size r fits short proper in
      let (js, ej, runs) =
        read_loop-ReadsAs size (offset % 256 % 256) 0 size (256 - byte offset) (omega arith)
          (omega arith) (omega arith) in
      let whole : read_operation offset size ≡ some (cmd_instr 1 ∷ addresses offset ∷ js) =
        rw ej refl in
      let same : is ≡ cmd_instr 1 ∷ addresses offset ∷ js = some_injective (sym e ∙ whole) in
      submitted ∙ ap (λ l. exec_op h l buffer r) same ∙ exec_op-jt_read buffer offset size js r runs
