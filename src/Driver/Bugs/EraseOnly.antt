-- ===== src/Driver/Bugs/EraseOnly.antt =====
-- The wait of alpha_7 (driver/alpha/alpha_7.c), which sleeps in an erase only, and the waits that it is in an
-- erase and out of one.
use v_spells_nand_use_case.Prelude.{
  ℕ, zero, suc, Bool, true, false, ◌≡◌, refl, arith, inl, inr, Bool-cases, ◌==◌, ltb, if◌then◌else◌,
}
use v_spells_nand_use_case.Outcome.{ok}
use v_spells_nand_use_case.Outcome.Laws.{rest_eq, rest_eq_given, >>=-ok}
use v_spells_nand_use_case.Host.{Host}
use v_spells_nand_use_case.Clock.{now}
use v_spells_nand_use_case.Device.Constants.{pn_status, device_ready, c_erase_execute}
use v_spells_nand_use_case.Device.Deadline.{before_deadline}
use v_spells_nand_use_case.Device.Gpio.{handle_breakpoint_gpio_get}
use v_spells_nand_use_case.Device.Rig.{Rig}
use v_spells_nand_use_case.Driver.Alpha.{poll_status, wait_loop}
use v_spells_nand_use_case.Driver.Bugs.{sleepless_loop, erase_sleep_loop}
use v_spells_nand_use_case.Driver.Registers.{gpio_get, dummy}

before_deadline-cur_cmd :
    (h : Host) (r : Rig) (busy : Bool) (t : Rig)
    → before_deadline h r ≡ ok (busy, t)
    → t.cur_cmd ≡ r.cur_cmd
unfolding before_deadline
before_deadline-cur_cmd h r busy t e =
    let ((n, i), read, gives) = >>=-ok (now h r.instant) _ (busy, t) e in ground arith

-- A poll leaves the driver's note of the last command as it is.
gpio_get-cur_cmd :
    (h : Host) (r : Rig) (v : ℕ) (t : Rig)
    → gpio_get h pn_status r ≡ ok (v, t)
    → t.cur_cmd ≡ r.cur_cmd
unfolding gpio_get handle_breakpoint_gpio_get
gpio_get-cur_cmd h r v t e =
    let ((w, u), answered, returned) =
      >>=-ok (handle_breakpoint_gpio_get h pn_status dummy r) _ (v, t) e in
    let ((busy, u'), asked, gives) = >>=-ok (before_deadline h r) _ (w, u) answered in
    let same = before_deadline-cur_cmd h r busy u' asked in ground arith

in_erase :
    (h : Host) (fuel timeout : ℕ) (r : Rig)
    → (r.cur_cmd == c_erase_execute) ≡ true
    → erase_sleep_loop h (poll_status h) fuel timeout r ≡ wait_loop h (poll_status h) fuel timeout r
unfolding erase_sleep_loop wait_loop
in_erase h zero timeout r erase = refl
in_erase h (suc fuel) timeout r erase = rest_eq_given (gpio_get h pn_status r) λ (v, t) polled.
    elim (Bool-cases (v == device_ready)) [
      | inl done ↦ rw done refl
      | inr busy ↦
          let still : (t.cur_cmd == c_erase_execute) ≡ true =
            rw (gpio_get-cur_cmd h r v t polled) erase in
          rw (busy, still)
            (rest_eq (now h (h.usleep 25 t.instant)) λ (n, i). elim (Bool-cases (ltb n timeout)) [
              | inl on ↦ rw on (in_erase h fuel timeout (record t { instant = i }) still)
              | inr late ↦ rw late refl
            ])
    ]

out_of_erase :
    (h : Host) (fuel timeout : ℕ) (r : Rig)
    → (r.cur_cmd == c_erase_execute) ≡ false
    → erase_sleep_loop h (poll_status h) fuel timeout r
      ≡ sleepless_loop h (poll_status h) fuel timeout r
unfolding erase_sleep_loop sleepless_loop
out_of_erase h zero timeout r other = refl
out_of_erase h (suc fuel) timeout r other = rest_eq_given (gpio_get h pn_status r) λ (v, t) polled.
    elim (Bool-cases (v == device_ready)) [
      | inl done ↦ rw done refl
      | inr busy ↦
          let still : (t.cur_cmd == c_erase_execute) ≡ false =
            rw (gpio_get-cur_cmd h r v t polled) other in
          rw (busy, still)
            (rest_eq (now h t.instant) λ (n, i). elim (Bool-cases (ltb n timeout)) [
              | inl on ↦ rw on (out_of_erase h fuel timeout (record t { instant = i }) still)
              | inr late ↦ rw late refl
            ])
    ]

-- The wait of alpha_7 does what the correct one does in an erase, with the same rounds, and what the wait of
-- alpha_1 does, which never sleeps, out of one.
pub erase_sleep_loop-waits :
    (h : Host) (fuel timeout : ℕ) (r : Rig)
    → erase_sleep_loop h (poll_status h) fuel timeout r ≡ (
        if r.cur_cmd == c_erase_execute
        then wait_loop h (poll_status h) fuel timeout r
        else sleepless_loop h (poll_status h) fuel timeout r)
erase_sleep_loop-waits h fuel timeout r = elim (Bool-cases (r.cur_cmd == c_erase_execute)) [
  | inl erase ↦ rw erase (in_erase h fuel timeout r erase)
  | inr other ↦ rw other (out_of_erase h fuel timeout r other)
]
