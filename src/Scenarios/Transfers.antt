-- ===== src/Scenarios/Transfers.antt =====
-- The jump table's operations, those of an interpreter, and the mirror's, on concrete inputs.
use v_spells_nand_use_case.Prelude.{ℕ, ◌<◌, ◌≡◌, refl, arith, inl}
use v_spells_nand_use_case.Outcome.{ok, stop, assertion, ◌>>=◌}
use v_spells_nand_use_case.Clock.Laws.{Returns}
use v_spells_nand_use_case.Driver.Interface.{success}
use v_spells_nand_use_case.Driver.Alpha.{table}
use v_spells_nand_use_case.Framework.JumpTable.{jt_write, jt_read, jt_erase}
use v_spells_nand_use_case.Framework.ExecOp.{Interpreter, exec_write, exec_read, exec_erase}
use v_spells_nand_use_case.Framework.ExecOp.Laws.{empty_transfer-assertion}
use v_spells_nand_use_case.Tester.Mirror.{write_mirror, erase_mirror, read_mirror}
use v_spells_nand_use_case.Tester.Mirror.Refines.{write_mirror-written, erase_mirror-erased}
use v_spells_nand_use_case.Transfer.Phase.{IsIdle}
use v_spells_nand_use_case.Transfer.Written.{written}
use v_spells_nand_use_case.Transfer.Erase.{erased}
use v_spells_nand_use_case.Transfer.Mirror.{jt_write-mirror, jt_read-mirror, jt_erase-mirror}
use v_spells_nand_use_case.Transfer.RoundTrip.{jt_read-jt_write}
use v_spells_nand_use_case.Driver.Foxtrot.{exec_op}
use v_spells_nand_use_case.Driver.Foxtrot.Paths.{exec_write-jt_write, exec_erase-jt_erase}
use v_spells_nand_use_case.Driver.Foxtrot.Reads.{exec_read-jt_read}
use v_spells_nand_use_case.Scenarios.{
  test_host, test_host-IsHost, zeroes, counting, test_rig, test_rig-IsIdle, small_bytes, zero_bytes,
}

jt_write-mirror_example :
    Returns test_host
      (λ (code, t).
        (code ≡ success) × IsIdle test_host-IsHost (write_mirror counting 1000 300 zeroes) t)
      (jt_write (table test_host) counting 1000 300 test_rig)
jt_write-mirror_example =
    jt_write-mirror test_host-IsHost counting 1000 300 zeroes test_rig small_bytes (omega arith)
      (omega arith) (omega arith) test_rig-IsIdle

jt_erase-mirror_example :
    Returns test_host
      (λ (code, t). (code ≡ success) × IsIdle test_host-IsHost (erase_mirror 65000 1000 zeroes) t)
      (jt_erase (table test_host) 65000 1000 test_rig)
jt_erase-mirror_example =
    jt_erase-mirror test_host-IsHost 65000 1000 zeroes test_rig (omega arith) (omega arith)
      (omega arith) test_rig-IsIdle

jt_read-mirror_example :
    Returns test_host
      (λ (code, b, t).
        (code ≡ success)
        × ((j : ℕ) → b j ≡ read_mirror zeroes counting 16777000 600 j)
        × IsIdle test_host-IsHost zeroes t)
      (jt_read (table test_host) counting 16777000 600 test_rig)
jt_read-mirror_example =
    jt_read-mirror test_host-IsHost counting 16777000 600 zeroes test_rig refl zero_bytes
      (omega arith) (omega arith) test_rig-IsIdle

jt_read-jt_write_example :
    Returns test_host
      (λ (code, code', b, t).
        (code ≡ success) × (code' ≡ success) × ((j : ℕ) → j < 300 → b j ≡ counting j))
      (jt_write (table test_host) counting 1000 300 test_rig >>= λ (code, t).
        jt_read (table test_host) zeroes 1000 300 t >>= λ (code', b, u). ok (code, code', b, u))
jt_read-jt_write_example =
    jt_read-jt_write test_host-IsHost counting zeroes 1000 300 zeroes test_rig refl zero_bytes
      small_bytes (omega arith) (omega arith) test_rig-IsIdle

write_mirror-written_example :
    write_mirror counting 1000 300 zeroes 1001 ≡ written counting 0 1000 300 zeroes 1001
write_mirror-written_example =
    write_mirror-written counting 1000 300 zeroes (omega arith) (omega arith) (omega arith) 1001

erase_mirror-erased_example : erase_mirror 65000 1000 counting 70000 ≡ erased 65000 2 counting 70000
erase_mirror-erased_example =
    erase_mirror-erased 65000 1000 counting 70000 (omega arith) (omega arith) (omega arith)

abbrev idle_interpreter : Interpreter
idle_interpreter instrs buffer r = ok (success, buffer, r)

empty_transfer-assertion_example :
    (exec_write idle_interpreter counting 7 0 test_rig ≡ stop assertion)
    × (exec_read idle_interpreter counting 7 0 test_rig ≡ stop assertion)
empty_transfer-assertion_example =
    empty_transfer-assertion idle_interpreter counting 7 test_rig (omega arith)

exec_write-jt_write_example :
    exec_write (exec_op test_host) counting 1000 300 test_rig
    ≡ jt_write (table test_host) counting 1000 300 test_rig
exec_write-jt_write_example =
    exec_write-jt_write test_host counting 1000 300 test_rig (omega arith) (omega arith)
      (inl (omega arith))

exec_erase-jt_erase_example :
    exec_erase (exec_op test_host) 65000 1000 test_rig
    ≡ jt_erase (table test_host) 65000 1000 test_rig
exec_erase-jt_erase_example = exec_erase-jt_erase test_host 65000 1000 test_rig

exec_read-jt_read_example :
    exec_read (exec_op test_host) zeroes 1000 300 test_rig
    ≡ jt_read (table test_host) zeroes 1000 300 test_rig
exec_read-jt_read_example =
    exec_read-jt_read test_host zeroes 1000 300 test_rig (omega arith) (omega arith)
      (inl (omega arith))
