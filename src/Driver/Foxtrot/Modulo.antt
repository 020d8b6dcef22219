-- ===== src/Driver/Foxtrot/Modulo.antt =====
-- The interpreter of foxtrot_2 (driver/foxtrot/foxtrot_2.c): its intended bug is that the index of the loop
-- goes round at 8.
use v_spells_nand_use_case.Prelude.{
  ℕ, zero, suc, ◌+◌, ◌%◌, ◌≤◌, ◌<◌, ◌≡◌, arith, Bytes, List, [], ◌∷◌, true, false, ltb,
}
use v_spells_nand_use_case.Outcome.{Outcome, Stop, ok, stop, out_of_fuel, assertion, ◌>>=◌}
use v_spells_nand_use_case.Host.{Host}
use v_spells_nand_use_case.Device.Constants.{ioreg_command}
use v_spells_nand_use_case.Device.Rig.{Rig}
use v_spells_nand_use_case.Driver.Interface.{
  Code, success, failure, NandOpInstr, cmd_instr, addr_instr, data_in_instr, data_out_instr,
  waitrdy_instr,
}
use v_spells_nand_use_case.Driver.Registers.{nand_set_register}
use v_spells_nand_use_case.Driver.Alpha.{nand_wait, nand_read, nand_program}
use v_spells_nand_use_case.Driver.Foxtrot.{send_all}
use v_spells_nand_use_case.Framework.ExecOp.{length}

-- the loop's body, one instruction
unfoldable pub exec_instr : Host → NandOpInstr → Bytes → Rig → Outcome (Code × Bytes × Rig)
unfolding send_all
exec_instr h (cmd_instr opcode) buffer r =
    nand_set_register h ioreg_command opcode r >>= λ r. ok (success, buffer, r)
exec_instr h (addr_instr addrs) buffer r = send_all h addrs r >>= λ r. ok (success, buffer, r)
exec_instr h (data_in_instr len index) buffer r =
    nand_program h buffer index len r >>= λ r. ok (success, buffer, r)
exec_instr h (data_out_instr len index) buffer r =
    nand_read h buffer index len r >>= λ (buffer, r). ok (success, buffer, r)
exec_instr h (waitrdy_instr timeout) buffer r =
    nand_wait h timeout r >>= λ (code, r). ok (code, buffer, r)

-- `commands->instrs[i]`; the loop's test keeps the index within the operation
abbrev pub run_at : Host → List NandOpInstr → ℕ → Bytes → Rig → Outcome (Code × Bytes × Rig)
run_at h [] i buffer r = stop assertion
run_at h (x ∷ is) zero buffer r = exec_instr h x buffer r
run_at h (x ∷ is) (suc i) buffer r = run_at h is i buffer r

-- `for (int i = 0; i < commands->ninstrs; i = (i+1) % 8)`
unfoldable pub modulo_loop :
    Host → ℕ → ℕ → List NandOpInstr → Bytes → Rig → Outcome (Code × Bytes × Rig)
unfolding exec_instr
modulo_loop h zero i is buffer r = stop out_of_fuel
modulo_loop h (suc fuel) i is buffer r = elim (ltb i (length is)) [
  | false ↦ ok (success, buffer, r)
  | true ↦ run_at h is i buffer r >>= λ (code, buffer, r). elim code [
    | failure ↦ ok (failure, buffer, r)
    | success ↦ modulo_loop h fuel ((i + 1) % 8) is buffer r
  ]
]

unfoldable pub modulo_exec_op :
    Host → ℕ → List NandOpInstr → Bytes → Rig → Outcome (Code × Bytes × Rig)
unfolding modulo_loop
modulo_exec_op h fuel is buffer r = modulo_loop h fuel 0 is buffer r

-- the run does not end in success
pub data Unsuccessful : Outcome (Code × Bytes × Rig) → Type 0 where
  failed : {b : Bytes} {t : Rig} → Unsuccessful (ok (failure, b, t))
  halted : {e : Stop} → Unsuccessful (stop e)

Unsuccessful-then :
    (o : Outcome (Code × Bytes × Rig)) {f : Code × Bytes × Rig → Outcome (Code × Bytes × Rig)}
    → ((a : Code × Bytes × Rig) → Unsuccessful (f a))
    → Unsuccessful (o >>= f)
Unsuccessful-then (ok a) rest = rest a
Unsuccessful-then (stop e) rest = halted

unless_failure :
    (code : Code) (b : Bytes) (t : Rig) {o : Outcome (Code × Bytes × Rig)}
    → Unsuccessful o
    → Unsuccessful (elim code [ failure ↦ ok (failure, b, t) | success ↦ o ])
unless_failure failure b t rest = failed
unless_failure success b t rest = rest

modulo_loop-Unsuccessful :
    (h : Host) (fuel i : ℕ) (is : List NandOpInstr) (buffer : Bytes) (r : Rig)
    → i < 8
    → 8 ≤ length is
    → Unsuccessful (modulo_loop h fuel i is buffer r)
unfolding modulo_loop
modulo_loop-Unsuccessful h zero i is buffer r small long = halted
modulo_loop-Unsuccessful h (suc fuel) i is buffer r small long =
    let more : ltb i (length is) ≡ true = ground arith in
    rw (modulo_loop, more)
      (Unsuccessful-then (run_at h is i buffer r) λ (code, b, t).
        unless_failure code b t
          (modulo_loop-Unsuccessful h fuel ((i + 1) % 8) is b t (omega arith) long))

-- An operation of eight instructions or more never succeeds with foxtrot_2, for any number of rounds: the
-- run fails, stops, or goes on.
pub modulo_exec_op-Unsuccessful :
    (h : Host) (fuel : ℕ) (is : List NandOpInstr) (buffer : Bytes) (r : Rig)
    → 8 ≤ length is
    → Unsuccessful (modulo_exec_op h fuel is buffer r)
unfolding modulo_exec_op
modulo_exec_op-Unsuccessful h fuel is buffer r long =
    modulo_loop-Unsuccessful h fuel 0 is buffer r (omega arith) long
