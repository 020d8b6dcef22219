-- ===== src/Driver/Bugs/Laws.antt =====
-- What the intended bugs of the alpha drivers do.
use v_spells_nand_use_case.Prelude.{
  ℕ, zero, suc, ◌+◌, ◌*◌, ◌/◌, ◌%◌, ◌^◌, ◌≤◌, ◌<◌, ◌≡◌, ◌≢◌, refl, sym, ap, ◌∙◌, subst, arith,
  Bytes, inl, inr, Bool-cases, ◌==◌, update, fun_ext, false,
}
use v_spells_nand_use_case.Outcome.{Stop, Outcome, ok, stop, ◌>>=◌}
use v_spells_nand_use_case.Outcome.Laws.{same_rest}
use v_spells_nand_use_case.Host.{Host}
use v_spells_nand_use_case.Clock.Laws.{
  IsHost, Returns, returns, bind, time, time-resume, time-usleep,
}
use v_spells_nand_use_case.Device.Constants.{device_ready}
use v_spells_nand_use_case.Device.Deadline.Laws.{IsReady, ticked}
use v_spells_nand_use_case.Device.Rig.{Rig}
use v_spells_nand_use_case.Driver.Interface.{success}
use v_spells_nand_use_case.Driver.Registers.{load_data}
use v_spells_nand_use_case.Driver.Alpha.{poll_status, sleep, nand_read}
use v_spells_nand_use_case.Driver.Wait.{gpio_get-Returns}
use v_spells_nand_use_case.Driver.Bugs.{
  endless_wait, read_run, read_eights, short_read, overlong_loop, overlong_read,
}

module _ {h : Host} (host : IsHost h) where
  -- The wait of alpha_2 never fails: however late the device is due, it returns success once the deadline
  -- has passed, if the clock can be read and there are more rounds than microseconds to the deadline.
  pub endless_wait-Returns :
      (fuel interval_us : ℕ) (r : Rig)
      → 0 < fuel
      → r.deadline < time host r.instant + fuel
      → Returns h
          (λ (code, t). (code ≡ success) × IsReady host t)
          (endless_wait h (poll_status h) fuel interval_us r)
  unfolding endless_wait
  endless_wait-Returns zero interval_us r some_fuel enough = absurd (omega arith)
  endless_wait-Returns (suc fuel) interval_us r some_fuel enough =
      bind (gpio_get-Returns host r) λ (v, t) (et, ev). elim (Bool-cases (v == device_ready)) [
        | inl done ↦ rw (done, et) (returns (refl, ground (arith, time-resume host r.instant)))
        | inr busy ↦
            let slept : time host r.instant + 25 ≤ time host (h.usleep 25 (h.resume r.instant)) =
              omega (arith, time-resume host r.instant, time-usleep host 25 (h.resume r.instant)) in
            simp busy (
              subst
                (λ u.
                  Returns h (λ (code, t). (code ≡ success) × IsReady host t)
                    (endless_wait h (poll_status h) fuel interval_us u))
                (sym (ap (sleep h) et))
                (endless_wait-Returns fuel interval_us (sleep h (ticked h r)) (ground arith)
                  (ground arith)))
      ]

-- Two reads that follow one another are one read.
nand_read-add :
    (h : Host) (m n both at next : ℕ) (buffer : Bytes) (r : Rig)
    → both ≡ m + n
    → next ≡ at + m
    → nand_read h buffer at both r ≡ (read_run h buffer at m r >>= λ (b, t). nand_read h b next n t)
unfolding nand_read read_run
nand_read-add h zero n both at next buffer r eb en =
    let eb' : both ≡ n = omega arith in let en' : next ≡ at = omega arith in rw (eb', en') refl
nand_read-add h (suc m) n both at next buffer r eb en =
    let eb' : both ≡ suc (m + n) = omega arith in
    rw eb' (
      same_rest (load_data h r) (λ (v, t). read_run h (update buffer at v) (at + 1) m t)
        (λ (b, t). nand_read h b next n t)
        λ (v, t).
          nand_read-add h m n (m + n) (at + 1) next (update buffer at v) t refl (omega arith))

read_eights-nand_read :
    (h : Host) (n at : ℕ) (buffer : Bytes) (r : Rig)
    → read_eights h buffer at n r ≡ nand_read h buffer at (8 * n) r
unfolding nand_read read_eights
read_eights-nand_read h zero at buffer r = refl
read_eights-nand_read h (suc n) at buffer r =
    ap (λ f. read_run h buffer at 8 r >>= f)
      (fun_ext λ (b, t). read_eights-nand_read h n (at + 8) b t)
    ∙ sym (nand_read-add h 8 (8 * n) (8 * suc n) at (at + 8) buffer r (omega arith) refl)

-- The read of alpha_4 is the correct read of the largest multiple of eight bytes that is not above the
-- length.
pub short_read-nand_read :
    (h : Host) (buffer : Bytes) (at length : ℕ) (r : Rig)
    → short_read h buffer at length r ≡ nand_read h buffer at (8 * (length / 8)) r
unfolding short_read
short_read-nand_read h buffer at length r = read_eights-nand_read h (length / 8) at buffer r

stop-ok : {A : Type 0} {e : Stop} {a : A} → stop e ≢ ok a
stop-ok p = cc

stopped :
    {A B : Type 0} (o : Outcome A) {f : A → Outcome B} {b : B}
    → ((a : A) → f a ≢ ok b)
    → (o >>= f) ≢ ok b
stopped (ok a) rest = rest a
stopped (stop e) rest = stop-ok

overlong_loop-endless :
    (h : Host) (fuel at i length : ℕ) (buffer : Bytes) (r : Rig) (o : Bytes × Rig)
    → length % 8 ≢ 0
    → i % 8 ≡ 0
    → overlong_loop h fuel buffer at i length r ≢ ok o
unfolding overlong_loop
overlong_loop-endless h zero at i length buffer r o ragged even = stop-ok
overlong_loop-endless h (suc fuel) at i length buffer r o ragged even =
    let more : (i == length) ≡ false = ground arith in
    rw (overlong_loop, more)
      (stopped (read_run h buffer (at + i) 8 r) λ (b, t).
        overlong_loop-endless h fuel at ((i + 8) % 2 ^ 32) length b t o ragged (omega arith))

-- The read of alpha_5 returns for no number of rounds, where the length is not a multiple of eight.
pub overlong_read-endless :
    (h : Host) (fuel at length : ℕ) (buffer : Bytes) (r : Rig) (o : Bytes × Rig)
    → length % 8 ≢ 0
    → overlong_read h fuel buffer at length r ≢ ok o
unfolding overlong_read
overlong_read-endless h fuel at length buffer r o ragged =
    overlong_loop-endless h fuel at 0 length buffer r o ragged refl
