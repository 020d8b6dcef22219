-- ===== src/UnitTests/Wait/Hangs.antt =====
-- The waits that the unit test of a wait finds to hang, until its alarm ends it.
use v_spells_nand_use_case.Prelude.{
  ℕ, zero, suc, ◌+◌, ◌<◌, ◌^◌, ◌≡◌, refl, arith, true, some, ◌==◌, ap,
}
use v_spells_nand_use_case.Outcome.{ok, stop, out_of_fuel, alarmed}
use v_spells_nand_use_case.Host.{Host, Timespec}
use v_spells_nand_use_case.Clock.{now, timeus}
use v_spells_nand_use_case.Clock.Laws.{IsHost, time}
use v_spells_nand_use_case.Device.Constants.{c_erase_execute, device_busy, ioreg_command}
use v_spells_nand_use_case.Device.Rig.{Rig}
use v_spells_nand_use_case.Driver.Bugs.{
  endless_wait, erase_poll_loop, erase_endless_loop, erase_endless_wait,
}
use v_spells_nand_use_case.UnitTests.Wait.{
  Meter, Rusage, always_busy, test_wait, plain, noting, timeout_us, linked_noting_set_register,
}

-- the clock can be read in a state of the host
abbrev pub Readable : Host → ℕ → Type 0
Readable h i = (ts : Timespec) × (h.clock_gettime i ≡ some ts)

-- the test can set up its alarm and read the use of the CPU in a state of the host
abbrev pub Prepares : Meter → ℕ → Type 0
Prepares meter i = (meter.sigaction i ≡ true) × ((u : Rusage) × (meter.getrusage i ≡ some u))

module _ (h : Host) where
  endless_wait-busy :
      (fuel interval_us : ℕ) (r : Rig)
      → endless_wait h always_busy fuel interval_us r ≡ stop out_of_fuel
  unfolding endless_wait always_busy
  endless_wait-busy zero interval_us r = refl
  endless_wait-busy (suc fuel) interval_us r = endless_wait-busy fuel interval_us _

  erase_poll_loop-busy :
      (fuel : ℕ) (r : Rig) → erase_poll_loop h always_busy fuel device_busy r ≡ stop out_of_fuel
  unfolding erase_poll_loop always_busy
  erase_poll_loop-busy zero r = refl
  erase_poll_loop-busy (suc fuel) r = erase_poll_loop-busy fuel _

  erase_endless_loop-busy :
      (fuel timeout t i : ℕ) (r : Rig)
      → (r.cur_cmd == c_erase_execute) ≡ true
      → now h r.instant ≡ ok (t, i)
      → t < timeout
      → erase_endless_loop h always_busy fuel timeout r ≡ stop out_of_fuel
  unfolding erase_endless_loop always_busy
  erase_endless_loop-busy zero timeout t i r erase clock soon = refl
  erase_endless_loop-busy (suc fuel) timeout t i r erase clock soon =
      ground (arith, erase_poll_loop-busy fuel (record r { instant = i }))

module _ {h : Host} (host : IsHost h) where
  now-ok :
      (i : ℕ) → Readable h i → (now h i ≡ ok (time host i, h.resume i)) × (time host i < 2 ^ 63)
  unfolding now time
  now-ok i (ts, e) =
      let exact = host.reads i ts e in
      (rw (e, now) (ap (λ (t : ℕ). ok (t, h.resume i)) (omega arith)), omega arith)

  -- The test of alpha_2's wait ends at the alarm, however many rounds the wait makes before that, for each command,
  -- if the alarm can be set up, the use of the CPU can be read, and the clock can.
  pub test_wait-endless_wait :
      (meter : Meter) (fuel command : ℕ) (r : Rig)
      → Prepares meter r.instant
      → Readable h r.instant
      → test_wait meter h (plain (endless_wait h always_busy fuel)) command r ≡ stop alarmed
  unfolding test_wait
  test_wait-endless_wait meter fuel command r (handled, measured) readable =
      rw (handled, measured.1, (now-ok r.instant readable).0, test_wait)
        (rw (endless_wait-busy h fuel timeout_us _) refl)

  -- The test of alpha_8's wait for an erase ends at the alarm, however many rounds the wait makes before that, if
  -- the alarm can be set up, the use of the CPU can be read, the clock can be read the first three times, and the
  -- third time is before the wait's timeout.
  pub test_wait-erase_endless_wait :
      (meter : Meter) (fuel : ℕ) (r : Rig)
      → Prepares meter r.instant
      → Readable h r.instant
      → Readable h (h.resume r.instant)
      → Readable h (h.resume (h.resume r.instant))
      → time host (h.resume (h.resume r.instant)) < time host (h.resume r.instant) + timeout_us
      → test_wait meter h (noting (erase_endless_wait h always_busy fuel)) c_erase_execute r
        ≡ stop alarmed
  unfolding test_wait erase_endless_wait
  test_wait-erase_endless_wait meter fuel r (handled, measured) first second third soon =
      let i = h.resume r.instant in
      let fits = (now-ok i second).1 in
      let exact : timeus (time host i + timeout_us) ≡ time host i + timeout_us = omega arith in
      rw (handled, measured.1, (now-ok r.instant first).0, test_wait)
        (rw ((now-ok i second).0, exact)
          (rw
            (erase_endless_loop-busy h fuel (time host i + timeout_us) (time host (h.resume i)) _
              (record (linked_noting_set_register ioreg_command c_erase_execute r) {
                instant = h.resume i;
              })
              refl (now-ok (h.resume i) third).0 soon)
            refl))
