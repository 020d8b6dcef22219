-- ===== src/Device/Deadline.antt =====
-- Busy or ready (device/de_deadline.c).
pub mod Laws
use v_spells_nand_use_case.Prelude.{ℕ, ◌+◌, Bool, ltb}
use v_spells_nand_use_case.Outcome.{Outcome, ok, ◌>>=◌}
use v_spells_nand_use_case.Host.{Host}
use v_spells_nand_use_case.Clock.{timeus, now}
use v_spells_nand_use_case.Device.Rig.{Rig}

unfoldable pub deadline_clear : Rig → Rig
deadline_clear r = record r { deadline = 0 }

unfoldable pub deadline_init : Rig → Rig
unfolding deadline_clear
deadline_init r = deadline_clear r

unfoldable pub before_deadline : Host → Rig → Outcome (Bool × Rig)
before_deadline h r = do
  (timenow, i) ← now h r.instant
  ok (ltb timenow r.deadline, record r { instant = i })

unfoldable pub set_deadline : Host → ℕ → Rig → Outcome Rig
set_deadline h duration r = do
  (timenow, i) ← now h r.instant
  ok (record r { instant = i; deadline = timeus (timenow + duration) })
