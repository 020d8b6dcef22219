-- ===== src/Tester/Stochastic/Passes.antt =====
-- The stochastic test (tester/st_stochastic.c) passes with a correct driver and the emulator.
use v_spells_nand_use_case.Prelude.{ℕ, zero, suc, ◌+◌, ◌*◌, ◌%◌, ◌≤◌, ◌<◌, ◌≡◌, refl, arith, subst}
use v_spells_nand_use_case.Host.{Host}
use v_spells_nand_use_case.Clock.Laws.{IsHost, Returns, returns, bind, Returns-either}
use v_spells_nand_use_case.Driver.Interface.{success, NandDriver}
use v_spells_nand_use_case.Tester.Libc.{Libc, Session, drawn}
use v_spells_nand_use_case.Tester.Stochastic.{
  arena_size, arena_start, num_ops, modulus, is_erase, is_write, do_op, ops_loop, do_test,
  tests_loop, st_stochastic,
}
use v_spells_nand_use_case.Tester.Stochastic.Operations.{
  IsMirrored, IsAllocating, Passed, do_erase-Passed, do_write-Passed, do_read_and_comparison-Passed,
}
use v_spells_nand_use_case.Tester.Stochastic.Choices.{
  IsDrawable, IsInArena, size_of, start_of, random_size-drawn, random_start-drawn,
  IsDrawable-IsInArena,
}
use v_spells_nand_use_case.Transfer.Correct.{IsCorrect}

-- every operation of `ops` draws numbers that pass the assertions
abbrev pub AreDrawable : Libc → (calls ops : ℕ) → Type 0
AreDrawable libc calls ops = (o : ℕ) → o < ops → IsDrawable libc (calls + 3 * o)

-- the draws of `rest` operations that come after `first` others
drawable_from :
    (libc : Libc) (calls ops first rest at : ℕ)
    → AreDrawable libc calls ops
    → first + rest ≤ ops
    → calls + 3 * first ≡ at
    → AreDrawable libc at rest
drawable_from libc calls ops first rest at drawable within e o inside =
    let place : calls + 3 * (first + o) ≡ at + 3 * o = omega arith in
    subst (IsDrawable libc) place (drawable (first + o) (omega arith))

module _ {h : Host} {host : IsHost h} {driver : NandDriver} (correct : IsCorrect host driver)
    (libc : Libc) (allocating : IsAllocating libc) where
  do_op-Passed :
      (s : Session)
      → IsDrawable libc s.randoms
      → IsMirrored host s
      → Returns h (Passed host (s.randoms + 3)) (do_op libc driver s)
  unfolding do_op
  do_op-Passed s drawable before =
      let inside = IsDrawable-IsInArena libc s.randoms drawable in
      let t = drawn (drawn (drawn s)) in
      let ready : IsMirrored host t = record { idle = before.idle; bytes = before.bytes } in
      let count : s.randoms + 3 ≡ t.randoms = omega arith in
      let choice = libc.random (s.randoms + 1 + 1) % modulus in
      rw (random_size-drawn libc s drawable, random_start-drawn libc s drawable, count)
        (Returns-either (is_erase choice)
          (do_erase-Passed correct (start_of libc s.randoms) (size_of libc s.randoms) t inside
            ready)
          (Returns-either (is_write choice)
            (do_write-Passed correct libc allocating (start_of libc s.randoms)
              (size_of libc s.randoms) t inside ready)
            (do_read_and_comparison-Passed correct libc allocating (start_of libc s.randoms)
              (size_of libc s.randoms) t inside ready)))

  ops_loop-Passed :
      (ops : ℕ) (s : Session)
      → AreDrawable libc s.randoms ops
      → IsMirrored host s
      → Returns h (Passed host (s.randoms + 3 * ops)) (ops_loop libc driver ops s)
  unfolding ops_loop
  ops_loop-Passed zero s drawable before = returns (refl, before, omega arith)
  ops_loop-Passed (suc ops) s drawable before =
      let here : s.randoms + 3 * 0 ≡ s.randoms = omega arith in
      bind (do_op-Passed s (subst (IsDrawable libc) here (drawable 0 (omega arith))) before)
        λ (code, t) (done, after, count).
          let total : s.randoms + 3 * suc ops ≡ t.randoms + 3 * ops = omega arith in
          rw (done, total)
            (ops_loop-Passed ops t
              (drawable_from libc s.randoms (suc ops) 1 ops t.randoms drawable (omega arith)
                (omega arith))
              after)

  -- A test passes that starts on an idle device which holds the mirror's bytes, if the clock can be read,
  -- memory does not run out, and its operations draw numbers that pass the assertions; and the device is
  -- then idle and holds the mirror's bytes again.
  do_test-Passed :
      (s : Session)
      → AreDrawable libc s.randoms num_ops
      → IsMirrored host s
      → Returns h (Passed host (s.randoms + 24)) (do_test libc driver arena_start arena_size s)
  unfolding do_test
  do_test-Passed s drawable before =
      let whole : IsInArena arena_start arena_size = (omega arith, omega arith, omega arith) in
      bind (do_erase-Passed correct arena_start arena_size s whole before)
        λ (code, t) (done, after, count). rw done (
          bind
            (ops_loop-Passed num_ops t
              (drawable_from libc s.randoms num_ops 0 num_ops t.randoms drawable (omega arith)
                (omega arith))
              after)
            λ (code', u) (done', after', count').
              let total : s.randoms + 24 ≡ u.randoms = omega arith in
              rw (done', total)
                (do_read_and_comparison-Passed correct libc allocating arena_start arena_size u
                  whole after'))

  tests_loop-Passed :
      (num_tests : ℕ) (s : Session)
      → AreDrawable libc s.randoms (num_tests * num_ops)
      → IsMirrored host s
      → Returns h
          (Passed host (s.randoms + 24 * num_tests))
          (tests_loop libc driver num_tests success s)
  unfolding tests_loop
  tests_loop-Passed zero s drawable before = returns (refl, before, omega arith)
  tests_loop-Passed (suc num_tests) s drawable before =
      bind (do_test-Passed s (λ o inside. drawable o (omega arith)) before)
        λ (code, t) (done, after, count).
          let total : s.randoms + 24 * suc num_tests ≡ t.randoms + 24 * num_tests = omega arith in
          rw (done, total)
            (tests_loop-Passed num_tests t
              (drawable_from libc s.randoms (suc num_tests * num_ops) num_ops (num_tests * num_ops)
                t.randoms drawable (omega arith) (omega arith))
              after)

  pub st_stochastic-Passed :
      (num_tests : ℕ) (s : Session)
      → AreDrawable libc s.randoms (num_tests * num_ops)
      → IsMirrored host s
      → Returns h (Passed host (s.randoms + 24 * num_tests)) (st_stochastic libc driver num_tests s)
  unfolding st_stochastic
  st_stochastic-Passed num_tests s drawable before = tests_loop-Passed num_tests s drawable before
