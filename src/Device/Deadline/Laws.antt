-- ===== src/Device/Deadline/Laws.antt =====
-- When the device is busy.
use v_spells_nand_use_case.Prelude.{ℕ, ◌+◌, ◌^◌, ◌<◌, ◌≤◌, ◌≡◌, false, arith}
use v_spells_nand_use_case.Host.{Host}
use v_spells_nand_use_case.Clock.Laws.{IsHost, Returns, returns, bind, now-Returns, time}
use v_spells_nand_use_case.Device.Rig.{Rig}
use v_spells_nand_use_case.Device.Deadline.{before_deadline, set_deadline}

-- the rig once the clock has been read
abbrev pub ticked : Host → Rig → Rig
ticked h r = record r { instant = h.resume r.instant }

module _ {h : Host} (host : IsHost h) where
  -- the deadline has passed
  abbrev pub IsReady : Rig → Type 0
  IsReady r = r.deadline ≤ time host r.instant

  pub ready-before_deadline :
      (r : Rig)
      → IsReady r
      → Returns h (λ (busy, t). (busy ≡ false) × (t ≡ ticked h r)) (before_deadline h r)
  unfolding before_deadline
  ready-before_deadline r ready =
      bind (now-Returns host r.instant) λ (t, i) (et, ei, _). returns (ground arith, rw ei)

  -- The deadline lies `duration` microseconds ahead; the sum does not wrap.
  pub set_deadline-Returns :
      (duration : ℕ) (r : Rig)
      → duration < 2 ^ 63
      → Returns h
          (λ t.
            t
            ≡ record r { instant = h.resume r.instant; deadline = time host r.instant + duration })
          (set_deadline h duration r)
  unfolding set_deadline
  set_deadline-Returns duration r short =
      bind (now-Returns host r.instant) λ (t, i) (et, ei, fits). returns (ground arith)
