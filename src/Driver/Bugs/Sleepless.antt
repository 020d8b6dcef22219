-- ===== src/Driver/Bugs/Sleepless.antt =====
-- The wait of alpha_1 (driver/alpha/alpha_1.c) never sleeps.
use v_spells_nand_use_case.Prelude.{ℕ, zero, suc, ◌+◌, ◌≡◌, refl, ltb, ◌==◌, inl, inr, Bool-cases}
use v_spells_nand_use_case.Outcome.Laws.{rest_eq}
use v_spells_nand_use_case.Host.{Host}
use v_spells_nand_use_case.Clock.{timeus, now}
use v_spells_nand_use_case.Device.Constants.{device_ready}
use v_spells_nand_use_case.Device.Rig.{Rig}
use v_spells_nand_use_case.Driver.Alpha.{Poll}
use v_spells_nand_use_case.Driver.Bugs.{sleepless_loop, sleepless_wait}

module _ (h : Host) (usleep : ℕ → ℕ → ℕ) (poll : Poll) where
  -- the host with another `usleep`
  abbrev pub other : Host
  other = record h { usleep = usleep }

  now-other : (i : ℕ) → now h i ≡ now other i
  unfolding now
  now-other i = refl

  loop-other :
      (fuel timeout : ℕ) (r : Rig)
      → sleepless_loop h poll fuel timeout r ≡ sleepless_loop other poll fuel timeout r
  unfolding sleepless_loop
  loop-other zero timeout r = refl
  loop-other (suc fuel) timeout r = rest_eq (poll r) λ (v, t).
      elim (Bool-cases (v == device_ready)) [
        | inl done ↦ rw done refl
        | inr busy ↦
            rw (busy, ← now-other t.instant)
              (rest_eq (now h t.instant) λ (n, i). elim (Bool-cases (ltb n timeout)) [
                | inl on ↦ rw on (loop-other fuel timeout (record t { instant = i }))
                | inr late ↦ rw late refl
              ])
      ]

  -- The wait of alpha_1 does what it does whatever the host's `usleep` does: it never sleeps.
  pub sleepless_wait-other :
      (fuel interval_us : ℕ) (r : Rig)
      → sleepless_wait h poll fuel interval_us r ≡ sleepless_wait other poll fuel interval_us r
  unfolding sleepless_wait
  sleepless_wait-other fuel interval_us r = rw (← now-other r.instant) (
      rest_eq (now h r.instant)
        λ (t, i). loop-other fuel (timeus (t + interval_us)) (record r { instant = i }))
