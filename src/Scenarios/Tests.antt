-- ===== src/Scenarios/Tests.antt =====
-- Concrete runs of the tester's flows and of the interpreters with an intended bug.
use v_spells_nand_use_case.Prelude.{
  ℕ, ◌+◌, ◌*◌, ◌%◌, ◌<◌, ◌≡◌, ◌⊎◌, refl, arith, some, List, ◌++◌, Bytes, for_range,
}
use v_spells_nand_use_case.Clock.Laws.{Returns}
use v_spells_nand_use_case.Outcome.{ok, stop, assertion, invalid_access, ◌>>=◌}
use v_spells_nand_use_case.Device.Store.Laws.{storage_size}
use v_spells_nand_use_case.Device.Rig.{Rig}
use v_spells_nand_use_case.Driver.Alpha.{get_driver, nand_read}
use v_spells_nand_use_case.Driver.Bugs.{backward_read}
use v_spells_nand_use_case.Driver.Bugs.Backward.{SameReversed, backward_read-nand_read}
use v_spells_nand_use_case.Driver.Foxtrot.{exec_op, interpreter}
use v_spells_nand_use_case.Driver.Foxtrot.Five.{
  five_exec_op, followed_by, exec_op-five_exec_op, exec_erase-invalid,
}
use v_spells_nand_use_case.Driver.Interface.{NandDriver, nand_exec_op, NandOpInstr, success}
use v_spells_nand_use_case.Framework.{read_nand}
use v_spells_nand_use_case.Framework.ExecOp.{length, exec_read, exec_erase}
use v_spells_nand_use_case.Scenarios.{
  test_host, test_host-IsHost, test_rig, test_rig-IsIdle, zeroes, counting, small_bytes, zero_bytes,
  eight_setups,
}
use v_spells_nand_use_case.Tester.Data.{data_init}
use v_spells_nand_use_case.Tester.Deterministic.{st_deterministic}
use v_spells_nand_use_case.Tester.Deterministic.Passes.{stored, cleared, st_deterministic-passes}
use v_spells_nand_use_case.Tester.Libc.{Libc, Session, drawn}
use v_spells_nand_use_case.Tester.Mirror.{read_mirror}
use v_spells_nand_use_case.Tester.Mirror.UnitTest.{test_offset, test_size, test}
use v_spells_nand_use_case.Tester.Mirror.UnitTest.Passes.{test-success}
use v_spells_nand_use_case.Tester.Stochastic.{
  arena_size, arena_start, num_ops, do_read_and_comparison, st_stochastic,
}
use v_spells_nand_use_case.Tester.Stochastic.Choices.{
  IsInArena, size_of, start_of, random_range, random_range-arena,
}
use v_spells_nand_use_case.Tester.Stochastic.Compare.{do_read_and_comparison-matches}
use v_spells_nand_use_case.Tester.Stochastic.Operations.{IsMirrored, IsAllocating, Passed}
use v_spells_nand_use_case.Tester.Stochastic.Passes.{AreDrawable, st_stochastic-Passed}
use v_spells_nand_use_case.Transfer.Correct.{get_driver-IsCorrect, interpreter-IsCorrect}
use v_spells_nand_use_case.Transfer.Phase.{IsIdle}

-- A library whose random numbers grow, so that a test's operations are of all three kinds, and whose memory
-- does not run out.
abbrev pub test_libc : Libc
test_libc = record { random = λ calls. 1000 + calls; malloc = λ calls size. some zeroes }

abbrev pub test_session : Session
test_session = record { rig = test_rig; mirror = zeroes; randoms = 0; mallocs = 0 }

pub test_session-IsMirrored : IsMirrored test_host-IsHost test_session
test_session-IsMirrored = record { idle = test_rig-IsIdle; bytes = zero_bytes }

pub test_libc-IsAllocating : IsAllocating test_libc
test_libc-IsAllocating calls size = (zeroes, refl, zero_bytes)

pub three_tests-AreDrawable : AreDrawable test_libc 0 (3 * num_ops)
three_tests-AreDrawable o inside = (omega arith, omega arith)

st_stochastic-Passed_example :
    Returns test_host
      (Passed test_host-IsHost (0 + 24 * 3))
      (st_stochastic test_libc (interpreter test_host) 3 test_session)
st_stochastic-Passed_example =
    st_stochastic-Passed (interpreter-IsCorrect test_host-IsHost refl) test_libc
      test_libc-IsAllocating 3 test_session three_tests-AreDrawable test_session-IsMirrored

st_deterministic-passes_example :
    Returns test_host
      (λ (code, t).
        (code ≡ success)
        × IsIdle test_host-IsHost (cleared (stored (data_init counting 300) zeroes)) t)
      (st_deterministic (get_driver test_host) counting zeroes test_rig)
st_deterministic-passes_example =
    st_deterministic-passes (get_driver-IsCorrect test_host-IsHost refl) counting zeroes zeroes
      test_rig small_bytes zero_bytes test_rig-IsIdle

random_range-arena_example :
    ((1 < size_of test_libc 0)
      × (start_of test_libc 0 + size_of test_libc 0 < arena_start + arena_size)
      × (random_range test_libc test_session
          ≡ ok (start_of test_libc 0, size_of test_libc 0, drawn (drawn test_session)))
      × IsInArena (start_of test_libc 0) (size_of test_libc 0)
      × (size_of test_libc 0 < arena_size))
    ⊎ (((size_of test_libc 0 ≡ 1)
          ⊎ (start_of test_libc 0 + size_of test_libc 0 ≡ arena_start + arena_size))
        × (random_range test_libc test_session ≡ stop assertion))
random_range-arena_example = random_range-arena test_libc test_session

-- a driver that does nothing but succeed, so that a read leaves the buffer as it is
abbrev idle_driver : NandDriver
idle_driver = nand_exec_op λ instrs buffer r. ok (success, buffer, r)

abbrev compared : Session
compared = record test_session { mallocs = 2 }

comparison_passes :
    do_read_and_comparison test_libc idle_driver 256 2 test_session ≡ ok (success, compared)
unfolding do_read_and_comparison read_nand exec_read read_mirror for_range
comparison_passes = refl

do_read_and_comparison-matches_example :
    (buffer b : Bytes) × (read_nand idle_driver buffer 256 2 test_rig ≡ ok (success, b, test_rig))
    × ((i : ℕ) → i < 2 → b i ≡ zeroes ((256 + i) % storage_size))
do_read_and_comparison-matches_example =
    do_read_and_comparison-matches test_libc idle_driver 256 2 test_session compared (omega arith)
      comparison_passes

test-success_example : test test_offset test_size counting zeroes zeroes ≡ success
test-success_example =
    test-success test_offset test_size counting zeroes zeroes (omega arith) (omega arith)
      (omega arith) (omega arith)

exec_op-five_exec_op_example :
    (first rest : List NandOpInstr) × (eight_setups ≡ first ++ rest)
    × (length first ≡ 5)
    × (exec_op test_host eight_setups counting test_rig ≡ (
        five_exec_op test_host eight_setups counting test_rig
        >>= followed_by (exec_op test_host rest)))
exec_op-five_exec_op_example =
    exec_op-five_exec_op test_host eight_setups counting test_rig (omega arith)

exec_erase-invalid_example :
    exec_erase (five_exec_op test_host) 65536 300 test_rig ≡ stop invalid_access
exec_erase-invalid_example = exec_erase-invalid test_host 65536 300 test_rig refl

backward_read-nand_read_example :
    SameReversed zeroes counting 0 7 16
      (nand_read test_host zeroes 0 16 test_rig)
      (backward_read test_host counting 7 16 test_rig)
backward_read-nand_read_example = backward_read-nand_read test_host zeroes counting 0 7 16 test_rig

-- a device that is due long after the test's start
abbrev busy_rig : Rig
busy_rig = record test_rig { deadline = 1000000 }
