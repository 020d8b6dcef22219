-- ===== src/Driver/Wait.antt =====
-- `nand_wait` of the correct drivers.
use v_spells_nand_use_case.Prelude.{
  ℕ, zero, suc, ◌+◌, ◌≤◌, ◌<◌, ◌^◌, ◌≡◌, refl, ap, sym, subst, arith, inl, inr, ltb, leb,
  if◌then◌else◌, ◌==◌, Bool-cases,
}
use v_spells_nand_use_case.Host.{Host}
use v_spells_nand_use_case.Clock.{timeus}
use v_spells_nand_use_case.Clock.Laws.{
  IsHost, Returns, returns, Returns-eq, bind, mono, time, now-Returns, time-resume, time-usleep,
}
use v_spells_nand_use_case.Device.Constants.{pn_status, device_ready}
use v_spells_nand_use_case.Device.Rig.{Rig}
use v_spells_nand_use_case.Device.Deadline.{before_deadline}
use v_spells_nand_use_case.Device.Deadline.Laws.{ticked, IsReady}
use v_spells_nand_use_case.Driver.Interface.{Code, success, failure}
use v_spells_nand_use_case.Driver.Registers.{gpio_get}
use v_spells_nand_use_case.Driver.Alpha.{poll_status, final_poll, wait_loop, nand_wait}

module _ {h : Host} (host : IsHost h) where
  -- the rig at another instant
  abbrev pub moved : ℕ → Rig → Rig
  moved i r = record r { instant = i }

  -- The status pin shows whether the deadline lies ahead, and the poll changes nothing.
  pub gpio_get-Returns :
      (r : Rig)
      → Returns h
          (λ (v, t).
            (t ≡ ticked h r) × ((v == device_ready) ≡ leb r.deadline (time host r.instant)))
          (gpio_get h pn_status r)
  unfolding gpio_get before_deadline
  gpio_get-Returns r =
      bind
        {P = λ (v, t).
          (t ≡ ticked h r) × (v ≡ (if ltb (time host r.instant) r.deadline then 1 else 0))}
        (bind {P = λ (busy, t). (t ≡ ticked h r) × (busy ≡ ltb (time host r.instant) r.deadline)}
          (bind (now-Returns host r.instant) λ (t, i) (et, ei, _). returns (rw ei, rw et))
          λ (busy, t) (et, eb). returns (et, rw eb))
        λ (v, t) (et, ev). Returns-eq {a = (v, t)} (ground arith) (et, ground arith)

  -- What a wait with this timeout has done: nothing but let time pass. It succeeds with the deadline
  -- behind it, and fails only where the deadline lies beyond the timeout.
  pub record Waited (r : Rig) (timeout : ℕ) (o : Code × Rig) : Type 0 where
    pub same : o.1 ≡ moved o.1.instant r
    pub later : time host r.instant ≤ time host o.1.instant
    pub ready : o.0 ≡ success → IsReady host o.1
    pub late : o.0 ≡ failure → timeout < r.deadline

  final_poll-Waited :
      (r : Rig) (timeout : ℕ)
      → timeout ≤ time host r.instant
      → Returns h (Waited r timeout) (final_poll (poll_status h) r)
  unfolding final_poll
  final_poll-Waited r timeout past = bind (gpio_get-Returns r) λ (v, t) (et, ev). returns (
      rw (ev, et)
        (record {
          same = refl;
          later = time-resume host r.instant;
          ready = ground (arith, time-resume host r.instant);
          late = ground arith;
        }))

  Waited-later :
      {r : Rig} {timeout i : ℕ} {o : Code × Rig}
      → time host r.instant ≤ time host i
      → Waited (moved i r) timeout o
      → Waited r timeout o
  Waited-later past w = record {
    same = w.same;
    later = omega (arith, w.later);
    ready = w.ready;
    late = w.late;
  }

  slept : Rig → ℕ
  slept r = h.usleep 25 (h.resume r.instant)

  time-slept : (r : Rig) → time host r.instant + 25 ≤ time host (slept r)
  unfolding slept
  time-slept r = omega (arith, time-resume host r.instant, time-usleep host 25 (h.resume r.instant))

  -- Enough rounds are given if each takes a microsecond.
  wait_loop-Waited :
      (fuel timeout : ℕ) (r : Rig)
      → 0 < fuel
      → timeout < time host r.instant + fuel
      → Returns h (Waited r timeout) (wait_loop h (poll_status h) fuel timeout r)
  unfolding wait_loop slept
  wait_loop-Waited zero timeout r some_fuel short = absurd (omega arith)
  wait_loop-Waited (suc fuel) timeout r some_fuel short =
      bind (gpio_get-Returns r) λ (v, t) (et, ev). elim (Bool-cases (v == device_ready)) [
        | inl done ↦
            rw (done, et)
              (returns (record {
                same = refl;
                later = time-resume host r.instant;
                ready = ground (arith, time-resume host r.instant);
                late = cc;
              }))
        | inr busy ↦
            simp (busy, et)
              (bind (now-Returns host (slept r)) λ (n, i) (en, ei, _).
                elim (Bool-cases (ltb n timeout)) [
                  | inl early ↦ rw early (
                      subst
                        (λ u.
                          Returns h (Waited r timeout) (wait_loop h (poll_status h) fuel timeout u))
                        (sym (ap (moved i) et))
                        (mono
                          (wait_loop-Waited fuel timeout (moved i r) (ground (arith, time-slept r))
                            (ground (arith, time-slept r, time-resume host (slept r))))
                          λ o w.
                            Waited-later (ground (arith, time-slept r, time-resume host (slept r)))
                              w))
                  | inr over ↦ rw over (
                      subst (λ u. Returns h (Waited r timeout) (final_poll (poll_status h) u))
                        (sym (ap (moved i) et))
                        (mono
                          (final_poll-Waited (moved i r) timeout
                            (ground (arith, time-resume host (slept r))))
                          λ o w.
                            Waited-later (ground (arith, time-slept r, time-resume host (slept r)))
                              w))
                ])
      ]

  -- `nand_wait` returns, if the clock can be read and the interval is below 2 ^ 63, whatever the deadline:
  -- with success and a device that is ready, or with failure, and then the device was due later than
  -- the interval that was given. Nothing but the time has changed.
  pub nand_wait-Waited :
      (interval_us : ℕ) (r : Rig)
      → interval_us < 2 ^ 63
      → Returns h (Waited r (time host r.instant + interval_us)) (nand_wait h interval_us r)
  unfolding nand_wait
  nand_wait-Waited interval_us r short = bind (now-Returns host r.instant) λ (t, i) (et, ei, fits).
      let late = time host r.instant + interval_us in
      let exact : timeus (t + interval_us) ≡ late = omega arith in
      let past : time host r.instant ≤ time host i = ground (arith, time-resume host r.instant) in
      rw exact (
        mono (wait_loop-Waited (interval_us + 2) late (moved i r) (omega arith) (omega arith))
          λ o w. Waited-later past w)
