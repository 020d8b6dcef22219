-- ===== src/Driver/Bugs/Hasty.antt =====
-- The wait of alpha_3 (driver/alpha/alpha_3.c), whose timeout is a time soon after the clock's start.
use v_spells_nand_use_case.Prelude.{
  ℕ, ◌≤◌, ◌<◌, ◌≡◌, ap, arith, inl, inr, Bool-cases, ◌==◌, ltb, false,
}
use v_spells_nand_use_case.Host.{Host}
use v_spells_nand_use_case.Clock.Laws.{
  IsHost, Returns, returns, bind, time, now-Returns, time-resume, time-usleep,
}
use v_spells_nand_use_case.Device.Constants.{device_ready}
use v_spells_nand_use_case.Device.Rig.{Rig}
use v_spells_nand_use_case.Driver.Alpha.{poll_status, sleep}
use v_spells_nand_use_case.Driver.Bugs.{hasty_loop, hasty_wait}
use v_spells_nand_use_case.Driver.Interface.{Code, success, failure}
use v_spells_nand_use_case.Driver.Wait.{gpio_get-Returns}

-- the result of a poll at a time: whether the device is due by then
pub data Polled (due at : ℕ) : Code → Type 0 where
  in_time : due ≤ at → Polled due at success
  too_early : at < due → Polled due at failure

module _ {h : Host} (host : IsHost h) where
  -- The wait of alpha_3 polls once, after one sleep, and returns what it finds, if the clock can be read: it
  -- fails wherever the device is due later than that, however long the interval.
  pub hasty_wait-Polled :
      (interval_us : ℕ) (r : Rig)
      → Returns h
          (λ (code, t). Polled r.deadline (time host (h.usleep 25 r.instant)) code)
          (hasty_wait h (poll_status h) interval_us r)
  unfolding hasty_wait hasty_loop
  hasty_wait-Polled interval_us r = bind (gpio_get-Returns host (sleep h r)) λ (v, t) (et, ev).
      elim (Bool-cases (v == device_ready)) [
        | inl done ↦ rw done (returns (in_time (ground arith)))
        | inr busy ↦ rw busy (
            bind (now-Returns host t.instant) λ (n, i) (en, ei, _).
              let place : t.instant ≡ h.resume (h.usleep 25 r.instant) =
                ap (λ (u : Rig). u.instant) et in
              let start = time-usleep host 25 r.instant in
              let on = time-resume host (h.usleep 25 r.instant) in
              let elapsed : n ≡ time host (h.resume (h.usleep 25 r.instant)) = rw place at en in
              let past : ltb n 25 ≡ false = ground (arith, start, on) in
              rw past (returns (too_early (ground arith))))
      ]
