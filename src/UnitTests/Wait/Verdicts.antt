-- ===== src/UnitTests/Wait/Verdicts.antt =====
-- What the unit test of a wait finds.
use v_spells_nand_use_case.Prelude.{
  ℕ, zero, suc, ◌+◌, ◌-◌, ◌*◌, ◌%◌, ◌^◌, ◌≤◌, ◌<◌, ◌≡◌, refl, arith, true, false, ap, ltb, leb,
  some, inl, inr, Bool-cases,
}
use v_spells_nand_use_case.Outcome.{Outcome}
use v_spells_nand_use_case.Host.{Host}
use v_spells_nand_use_case.Clock.{timeus}
use v_spells_nand_use_case.Clock.Laws.{
  IsHost, Returns, returns, lost, bind, mono, time, now-Returns, time-resume, time-usleep,
}
use v_spells_nand_use_case.Device.Rig.{Rig}
use v_spells_nand_use_case.Driver.Alpha.{wait_loop, linked_wait, final_poll}
use v_spells_nand_use_case.Driver.Bugs.{hasty_wait, hasty_loop}
use v_spells_nand_use_case.Driver.Interface.{Code, success, failure}
use v_spells_nand_use_case.UnitTests.Wait.{
  Meter, Rusage, Verdict, always_busy, rusage_to_us, test_wait, test_all, all_three, judge, plain,
  timeout_us, metatimeout_s, elapsed_us, until_alarm,
}

-- the user and the system time in microseconds
abbrev pub micros : Rusage → ℕ
micros u =
    (u.ru_utime.tv_sec + u.ru_stime.tv_sec) * 1000000 + (u.ru_utime.tv_usec + u.ru_stime.tv_usec)

-- the CPU time between two uses of the CPU, in 64 bits
abbrev pub cpu_between : Rusage → Rusage → ℕ
cpu_between before after = (micros after + 2 ^ 64 - micros before % 2 ^ 64) % 2 ^ 64

rusage_between :
    (before after : Rusage)
    → elapsed_us (rusage_to_us before) (rusage_to_us after) ≡ cpu_between before after
unfolding rusage_to_us
rusage_between before after = omega arith

until_alarm-Returns :
    {h : Host} {A : Type 0} {P : A → Type 0} {o : Outcome A}
    → Returns h P o
    → Returns h P (until_alarm o)
until_alarm-Returns (returns p) = returns p
until_alarm-Returns (lost e) = lost e

-- What the test finds of a wait that has timed out in time, from the state `r` before the test to the state `t`
-- after it: the first two tests pass, and the third is asked about the CPU time that the process has used between
-- the two states, in the time that the clock has counted between them, up to its last reading.
pub record InTime {h : Host} (host : IsHost h) (meter : Meter) (r t : Rig) (v : Verdict)
    : Type 0 where
  pub timeout_pass : v.timeout_pass ≡ true
  pub wait_pass : v.wait_pass ≡ true
  pub before : Rusage
  pub used_before : meter.getrusage r.instant ≡ some before
  pub after : Rusage
  pub used_after : meter.getrusage t.instant ≡ some after
  pub finish : ℕ
  pub finished : t.instant ≡ h.resume finish
  pub whole : timeout_us ≤ time host finish - time host r.instant
  pub sleep_pass :
      v.sleep_pass
      ≡ meter.above_sleep_bar (cpu_between before after) (time host finish - time host r.instant)

module _ {h : Host} (host : IsHost h) where
  -- The test can set up its alarm and read the use of the CPU; a call of the host, and a sleep of 25 microseconds,
  -- take at most a second; and the alarm does not ring before its time.
  pub record IsPrompt (meter : Meter) : Type 0 where
    pub handles : (i : ℕ) → meter.sigaction i ≡ true
    pub measures : (i : ℕ) → (u : Rusage) × (meter.getrusage i ≡ some u)
    pub resumes : (i : ℕ) → time host (h.resume i) ≤ time host i + 1000000
    pub sleeps : (i : ℕ) → time host (h.usleep 25 i) ≤ time host i + 1000000
    pub rings :
        (i j : ℕ) → time host j < time host i + 20000000 → meter.alarm metatimeout_s i j ≡ false

module _ {h : Host} {host : IsHost h} {meter : Meter} (prompt : IsPrompt host meter) where
  -- a wait that has failed, at the timeout or at most three seconds later
  abbrev TimedOut : ℕ → Code × Rig → Type 0
  TimedOut timeout (code, t) =
      (code ≡ failure) × (timeout ≤ time host t.instant) × (time host t.instant ≤ timeout + 3000000)

  wait_loop-TimedOut :
      (fuel timeout : ℕ) (r : Rig)
      → 0 < fuel
      → timeout < time host r.instant + fuel
      → time host r.instant ≤ timeout + 1000000
      → Returns h (TimedOut timeout) (wait_loop h always_busy fuel timeout r)
  unfolding wait_loop always_busy final_poll
  wait_loop-TimedOut zero timeout r some_fuel short soon = absurd (omega arith)
  wait_loop-TimedOut (suc fuel) timeout r some_fuel short soon =
      let asleep = h.usleep 25 r.instant in
      let on = time-resume host asleep in
      let on_soon = prompt.resumes asleep in
      let slept = time-usleep host 25 r.instant in
      let slept_soon = prompt.sleeps r.instant in
      bind (now-Returns host asleep) λ (n, i) (en, ei, _). elim (Bool-cases (ltb n timeout)) [
        | inl early ↦ rw early (
            wait_loop-TimedOut fuel timeout (record r { instant = i }) (ground arith) (ground arith)
              (ground arith))
        | inr over ↦ rw over (returns (refl, ground arith, ground arith))
      ]

  linked_wait-TimedOut :
      (interval_us : ℕ) (r : Rig)
      → interval_us < 2 ^ 63
      → Returns h
          (TimedOut (time host r.instant + interval_us))
          (linked_wait h always_busy interval_us r)
  unfolding linked_wait
  linked_wait-TimedOut interval_us r short =
      bind (now-Returns host r.instant) λ (t, i) (et, ei, fits).
        let late = time host r.instant + interval_us in
        let exact : timeus (t + interval_us) ≡ late = omega arith in
        let on = time-resume host r.instant in
        let on_soon = prompt.resumes r.instant in
        rw exact (
          wait_loop-TimedOut (interval_us + 2) late (record r { instant = i }) (omega arith)
            (ground arith) (ground arith))

  -- The correct wait passes the first two tests, on the timeout and on its time, for each command, before the alarm
  -- rings, and the third is asked about the CPU time, user and system, between the uses of the CPU that the test has
  -- read, and the elapsed time, which is at least the interval; if the clock can be read, the alarm can be set up,
  -- the use of the CPU can be read, the host delays the process by at most a second at a time, and the alarm does
  -- not ring before its 20 seconds.
  pub test_wait-linked_wait :
      (command : ℕ) (r : Rig)
      → Returns h
          (λ (found, t). (v : Verdict) × (found ≡ some v) × InTime host meter r t v)
          (test_wait meter h (plain (linked_wait h always_busy)) command r)
  unfolding test_wait judge
  test_wait-linked_wait command r =
      let (before, used_before) = prompt.measures r.instant in
      let on = time-resume host r.instant in
      let on_soon = prompt.resumes r.instant in
      rw (prompt.handles r.instant, used_before, test_wait)
        (bind (now-Returns host r.instant) λ (start, i) (es, ei, fits).
          bind (until_alarm-Returns (linked_wait-TimedOut timeout_us _ (omega arith)))
            λ (code, t) (ec, late, soon).
              bind (now-Returns host t.instant) λ (end, j) (ee, ej, fits').
                let end_soon = prompt.resumes t.instant in
                let (after, used_after) = prompt.measures j in
                let silent = prompt.rings r.instant j (ground arith) in
                let exact : elapsed_us start end ≡ time host t.instant - time host r.instant =
                  ground arith in
                rw (silent, used_after)
                  (returns (
                    judge meter code start end before after,
                    refl,
                    record {
                      timeout_pass = rw ec refl;
                      wait_pass = ground arith;
                      before = before;
                      used_before = used_before;
                      after = after;
                      used_after = used_after;
                      finish = t.instant;
                      finished = ej;
                      whole = ground arith;
                      sleep_pass = rw (rusage_between before after, exact) refl;
                    },
                  )))

  -- The correct wait passes the whole unit test, if moreover the host charges little CPU time for a wait of that
  -- length.
  pub test_all-linked_wait :
      (r : Rig)
      → ((cpu elapsed : ℕ) → timeout_us ≤ elapsed → meter.above_sleep_bar cpu elapsed ≡ true)
      → Returns h
          (λ (code, t). code ≡ success)
          (test_all meter h (plain (linked_wait h always_busy)) r)
  unfolding test_all
  test_all-linked_wait r idles = bind (passes 2 r) λ (a, r1) ea.
      bind (passes 4 r1)
        λ (b, r2) eb. bind (passes 6 r2) λ (c, r3) ec. returns (rw (ea, eb, ec) refl)
    where
      passes :
          (command : ℕ) (r : Rig)
          → Returns h
              (λ (found, t). all_three found ≡ true)
              (test_wait meter h (plain (linked_wait h always_busy)) command r)
      passes command r = mono (test_wait-linked_wait command r) λ (found, t) (v, ef, w).
          rw (ef, w.timeout_pass, w.wait_pass, w.sleep_pass, idles _ _ w.whole) refl

module _ {h : Host} (host : IsHost h) where
  hasty_wait-busy :
      (interval_us : ℕ) (r : Rig)
      → Returns h
          (λ (code, t). (code ≡ failure) × (t.instant ≡ h.resume (h.usleep 25 r.instant)))
          (hasty_wait h always_busy interval_us r)
  unfolding hasty_wait hasty_loop always_busy
  hasty_wait-busy interval_us r =
      bind (now-Returns host (h.usleep 25 r.instant)) λ (n, k) (en, ek, _).
        let past : ltb n 25 ≡ false = ground (arith, time-usleep host 25 r.instant) in
        rw past (returns (refl, ek))

  -- The wait of alpha_3 passes the first test, on the timeout, and the second only where the clock went on for
  -- the whole interval during one sleep of 25 microseconds, if the clock can be read, the alarm can be set up, the
  -- use of the CPU can be read, and the alarm has not rung after that sleep.
  pub test_wait-hasty_wait :
      (meter : Meter) (command : ℕ) (r : Rig)
      → meter.sigaction r.instant ≡ true
      → ((i : ℕ) → (u : Rusage) × (meter.getrusage i ≡ some u))
      → meter.alarm metatimeout_s r.instant (h.resume (h.resume (h.usleep 25 (h.resume r.instant))))
        ≡ false
      → Returns h
          (λ (found, t).
            (v : Verdict) × (found ≡ some v)
            × (v.timeout_pass ≡ true)
            × (v.wait_pass
                ≡ leb timeout_us (
                    time host (h.resume (h.usleep 25 (h.resume r.instant))) - time host r.instant)))
          (test_wait meter h (plain (hasty_wait h always_busy)) command r)
  unfolding test_wait judge
  test_wait-hasty_wait meter command r handled readable silent =
      rw (handled, (readable r.instant).1, test_wait)
        (bind (now-Returns host r.instant) λ (start, i) (es, ei, fits).
          bind (until_alarm-Returns (hasty_wait-busy timeout_us _)) λ (code, t) (ec, et).
            bind (now-Returns host t.instant) λ (end, j) (ee, ej, fits').
              let past = time-usleep host 25 (h.resume r.instant) in
              let on = time-resume host (h.usleep 25 (h.resume r.instant)) in
              let first = time-resume host r.instant in
              let place : t.instant ≡ h.resume (h.usleep 25 (h.resume r.instant)) = rw ei at et in
              let last : j ≡ h.resume (h.resume (h.usleep 25 (h.resume r.instant))) =
                rw place at ej in
              let quiet : meter.alarm metatimeout_s r.instant j ≡ false = rw last silent in
              let late : end ≡ time host (h.resume (h.usleep 25 (h.resume r.instant))) =
                rw place at ee in
              let exact : elapsed_us start end
                  ≡ time host (h.resume (h.usleep 25 (h.resume r.instant))) - time host r.instant =
                omega arith in
              rw (quiet, (readable j).1)
                (returns (
                  judge meter code start end (readable r.instant).0 (readable j).0,
                  refl,
                  rw ec refl,
                  ap (leb timeout_us) exact,
                )))
