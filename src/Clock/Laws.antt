-- ===== src/Clock/Laws.antt =====
-- What the host's documentation promises of its clock, and what `now` then gives.
use v_spells_nand_use_case.Prelude.{
  ℕ, ◌+◌, ◌*◌, ◌/◌, ◌^◌, ◌≤◌, ◌<◌, ◌≡◌, refl, none, some, Option-cases, inl, inr, arith, Bool, true,
  false, if◌then◌else◌,
}
use v_spells_nand_use_case.Outcome.{Outcome, ok, stop, clock_failed, ◌>>=◌}
use v_spells_nand_use_case.Host.{Timespec, Host}
use v_spells_nand_use_case.Clock.{now}

-- `elapsed` is the time in nanoseconds that the monotonic clock has counted in a host's state. The
-- clock does not go back, a sleep takes at least as long as was asked for, and a reading is that
-- time in whole seconds below 2 ^ 43 and the nanoseconds that are left. A clock that has counted
-- further has no representation and is not read.
pub record IsHost (h : Host) : Type 0 where
  pub elapsed : ℕ → ℕ
  pub resume_grows : (i : ℕ) → elapsed i ≤ elapsed (h.resume i)
  pub usleep_grows : (us i : ℕ) → elapsed i + 1000 * us ≤ elapsed (h.usleep us i)
  pub reads :
      (i : ℕ) (ts : Timespec)
      → h.clock_gettime i ≡ some ts
      → (ts.tv_sec * 1000000000 + ts.tv_nsec ≡ elapsed i)
        × (ts.tv_nsec < 1000000000)
        × (ts.tv_sec < 2 ^ 43)

-- Total correctness up to the clock: the run ends, and it ends in a value with `P` or because the
-- clock could not be read in a state that the host was in.
pub data Returns (h : Host) {A : Type 0} (P : A → Type 0) : Outcome A → Type 0 where
  returns : {a : A} → P a → Returns h P (ok a)
  lost : {i : ℕ} → h.clock_gettime i ≡ none → Returns h P (stop (clock_failed i))

module _ {h : Host} {A : Type 0} {P : A → Type 0} where
  pub bind :
      {B : Type 0} {Q : B → Type 0} {r : Outcome A} {k : A → Outcome B}
      → Returns h P r
      → ((a : A) → P a → Returns h Q (k a))
      → Returns h Q (r >>= k)
  bind (returns {a} p) next = next a p
  bind (lost e) next = lost e

  pub Returns-eq : {r : Outcome A} {a : A} → r ≡ ok a → P a → Returns h P r
  Returns-eq e p = rw e (returns p)

  pub mono :
      {Q : A → Type 0} {r : Outcome A} → Returns h P r → ((a : A) → P a → Q a) → Returns h Q r
  mono (returns {a} p) weaken = returns (weaken a p)
  mono (lost e) weaken = lost e

  pub Returns-either :
      (b : Bool) {x y : Outcome A}
      → Returns h P x
      → Returns h P y
      → Returns h P (if b then x else y)
  Returns-either true first second = first
  Returns-either false first second = second

module _ {h : Host} (host : IsHost h) where
  -- the time in microseconds that `now` returns
  unfoldable pub time : ℕ → ℕ
  time i = host.elapsed i / 1000

  pub now-Returns :
      (i : ℕ) → Returns h (λ (t, j). (t ≡ time i) × (j ≡ h.resume i) × (t < 2 ^ 63)) (now h i)
  unfolding now time
  now-Returns i = elim (Option-cases (h.clock_gettime i)) [
    | inl e ↦ rw (e, now) (lost e)
    | inr (ts, e) ↦
        rw (e, now)
          (returns (omega (arith, host.reads i ts e), refl, omega (arith, host.reads i ts e)))
  ]

  pub time-resume : (i : ℕ) → time i ≤ time (h.resume i)
  unfolding time
  time-resume i = omega (arith, host.resume_grows i)

  pub time-usleep : (us i : ℕ) → time i + us ≤ time (h.usleep us i)
  unfolding time
  time-usleep us i = omega (arith, host.usleep_grows us i)
