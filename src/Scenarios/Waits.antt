-- ===== src/Scenarios/Waits.antt =====
-- The unit test of a wait on concrete inputs.
use v_spells_nand_use_case.Prelude.{ℕ, ◌+◌, ◌*◌, ◌-◌, ◌≡◌, refl, arith, some, true, leb}
use v_spells_nand_use_case.Outcome.{stop, alarmed}
use v_spells_nand_use_case.Host.{Timespec}
use v_spells_nand_use_case.Clock.Laws.{Returns, time}
use v_spells_nand_use_case.Driver.Alpha.{linked_wait}
use v_spells_nand_use_case.Driver.Bugs.{hasty_wait, erase_endless_wait, sleepless_wait}
use v_spells_nand_use_case.Driver.Bugs.Sleepless.{other, sleepless_wait-other}
use v_spells_nand_use_case.UnitTests.Wait.{
  Meter, Rusage, Verdict, always_busy, test_wait, plain, noting, timeout_us,
}
use v_spells_nand_use_case.UnitTests.Wait.Verdicts.{
  InTime, IsPrompt, test_wait-linked_wait, test_wait-hasty_wait,
}
use v_spells_nand_use_case.UnitTests.Wait.Hangs.{test_wait-erase_endless_wait}
use v_spells_nand_use_case.Scenarios.{test_host, test_host-IsHost, test_rig}

abbrev no_time : Rusage
no_time = record {
  ru_utime = record { tv_sec = 0; tv_usec = 0 };
  ru_stime = record { tv_sec = 0; tv_usec = 0 };
}

abbrev meter : Meter
meter = record {
  sigaction = λ i. true;
  alarm = λ seconds i j. leb (seconds * 1000000000 + i) j;
  getrusage = λ i. some no_time;
  above_sleep_bar = λ cpu elapsed. leb (2 * cpu) elapsed;
}

meter-IsPrompt : IsPrompt test_host-IsHost meter
unfolding time
meter-IsPrompt = record {
  handles = λ i. refl;
  measures = λ i. (no_time, refl);
  resumes = λ i. omega arith;
  sleeps = λ i. omega arith;
  rings = λ i j early. ground arith;
}

test_wait-linked_wait_example :
    Returns test_host
      (λ (found, t). (v : Verdict) × (found ≡ some v) × InTime test_host-IsHost meter test_rig t v)
      (test_wait meter test_host (plain (linked_wait test_host always_busy)) 4 test_rig)
test_wait-linked_wait_example = test_wait-linked_wait meter-IsPrompt 4 test_rig

test_wait-hasty_wait_example :
    Returns test_host
      (λ (found, t).
        (v : Verdict) × (found ≡ some v)
        × (v.timeout_pass ≡ true)
        × (v.wait_pass ≡ leb timeout_us (time test_host-IsHost 30002 - time test_host-IsHost 5000)))
      (test_wait meter test_host (plain (hasty_wait test_host always_busy)) 4 test_rig)
test_wait-hasty_wait_example =
    test_wait-hasty_wait test_host-IsHost meter 4 test_rig refl (λ i. (no_time, refl)) refl

-- a reading of the clock in the first second
abbrev early : ℕ → Timespec
early ns = record { tv_sec = 0; tv_nsec = ns }

test_wait-erase_endless_wait_example :
    test_wait meter test_host (noting (erase_endless_wait test_host always_busy 100)) 6 test_rig
    ≡ stop alarmed
unfolding time
test_wait-erase_endless_wait_example =
    test_wait-erase_endless_wait test_host-IsHost meter 100 test_rig (refl, (no_time, refl))
      (early 5000, refl) (early 5001, refl) (early 5002, refl) (omega arith)

sleepless_wait-other_example :
    sleepless_wait test_host always_busy 100 2000 test_rig
    ≡ sleepless_wait (other test_host (λ us i. i) always_busy) always_busy 100 2000 test_rig
sleepless_wait-other_example =
    sleepless_wait-other test_host (λ us i. i) always_busy 100 2000 test_rig
