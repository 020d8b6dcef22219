-- ===== src/Main/Child.antt =====
-- The child process (main/main.c) with the correct drivers.
use v_spells_nand_use_case.Prelude.{ℕ, ◌*◌, ◌<◌, ◌≡◌, refl, arith, some, ◌==◌, true}
use v_spells_nand_use_case.Outcome.{ok}
use v_spells_nand_use_case.Host.{Host}
use v_spells_nand_use_case.Clock.Laws.{IsHost, Returns, returns, bind}
use v_spells_nand_use_case.Device.IoRegs.Laws.{IsDecodable}
use v_spells_nand_use_case.Driver.Interface.{success, NandDriver}
use v_spells_nand_use_case.Main.{
  Mode, cl_deterministic, cl_stochastic, cl_error, alpha_0, foxtrot_0, init_framework, Start,
  run_tests, check_dib, run_child,
}
use v_spells_nand_use_case.Framework.Dib.{Memory, Placed}
use v_spells_nand_use_case.Tester.Deterministic.Passes.{st_deterministic-passes}
use v_spells_nand_use_case.Tester.Dib.{st_dib_init}
use v_spells_nand_use_case.Tester.Libc.{Libc}
use v_spells_nand_use_case.Tester.Stochastic.{num_ops}
use v_spells_nand_use_case.Tester.Stochastic.Operations.{IsMirrored, IsAllocating}
use v_spells_nand_use_case.Tester.Stochastic.Passes.{AreDrawable, st_stochastic-Passed}
use v_spells_nand_use_case.Transfer.Correct.{IsCorrect, get_driver-IsCorrect, interpreter-IsCorrect}

-- What the tests need: the device is idle and holds the mirror's bytes, the arrays hold bytes, memory does
-- not run out, and the random numbers pass the assertions of the stochastic test.
pub record IsReadyFor {h : Host} (host : IsHost h) (libc : Libc) (mode : Mode) (start : Start)
    : Type 0 where
  pub mirrored : IsMirrored host start.session
  pub data_bytes : (i : ℕ) → start.data_array i < 256
  pub allocating : IsAllocating libc
  pub drawable :
      (num_tests : ℕ)
      → mode ≡ cl_stochastic num_tests
      → AreDrawable libc start.session.randoms (num_tests * num_ops)

module _ {h : Host} {host : IsHost h} {driver : NandDriver} (correct : IsCorrect host driver) where
  pub run_tests-passes :
      (libc : Libc) (mode : Mode) (start : Start)
      → IsReadyFor host libc mode start
      → Returns h (λ code. code ≡ success) (run_tests libc driver mode start)
  unfolding run_tests
  run_tests-passes libc (cl_stochastic num_tests) start ready =
      bind
        (st_stochastic-Passed correct libc ready.allocating num_tests start.session
          (ready.drawable num_tests refl) ready.mirrored)
        λ (code, t) (done, _, _). returns done
  run_tests-passes libc cl_deterministic start ready =
      bind
        (st_deterministic-passes correct start.data_array start.dest start.session.mirror
          start.session.rig ready.data_bytes ready.mirrored.bytes ready.mirrored.idle)
        λ (code, t) (done, _). returns done
  run_tests-passes libc cl_error start ready =
      bind
        (st_deterministic-passes correct start.data_array start.dest start.session.mirror
          start.session.rig ready.data_bytes ready.mirrored.bytes ready.mirrored.idle)
        λ (code, t) (done, _). returns done

-- a driver that leaves the block alone
module _ {h : Host} (host : IsHost h) (decodable : IsDecodable h) (libc : Libc) (mode : Mode)
    (start : Start) (ready : IsReadyFor host libc mode start) (at : Placed) (m : Memory) where
  same_dib : (d : ℕ) → check_dib m (some d) (some d) ≡ ok success
  same_dib d = let e : (d == d) ≡ true = ground arith in rw e refl

  -- With alpha_0 and with foxtrot_0 the child's checks all pass and it returns 0, if the clock can be read,
  -- whatever is in the memory of the nodes. The device is idle and holds the mirror's bytes at first,
  -- memory does not run out, and the random numbers pass the stochastic test's assertions.
  pub run_child-passes :
      Returns h (λ code. code ≡ success) (run_child libc (alpha_0 h) mode at m start)
      × Returns h (λ code. code ≡ success) (run_child libc (foxtrot_0 h) mode at m start)
  unfolding run_child init_framework st_dib_init
  run_child-passes =
      let e : (at.device == at.device) ≡ true = ground arith in
      (
        rw e (run_tests-passes (get_driver-IsCorrect host decodable) libc mode start ready),
        rw e (run_tests-passes (interpreter-IsCorrect host decodable) libc mode start ready),
      )
