-- ===== src/UnitTests/Emulator/Words.antt =====
-- A word that the unit test of the emulator stores is a byte that a driver stores to a word with zeroes, and
-- its waits are long enough for every operation.
use v_spells_nand_use_case.Prelude.{
  ℕ, zero, suc, ◌+◌, ◌*◌, ◌%◌, ◌^◌, ◌≤◌, ◌<◌, ◌≡◌, refl, ap, sym, subst, arith, Bytes, Bool, true,
  false, ◌==◌, inl, inr, Bool-cases, bit_or-add, if◌then◌else◌,
}
use v_spells_nand_use_case.Outcome.{Outcome, ok, stop, assertion, ◌>>=◌}
use v_spells_nand_use_case.Host.{Host}
use v_spells_nand_use_case.Clock.Laws.{
  IsHost, Returns, returns, bind, time, time-resume, time-usleep,
}
use v_spells_nand_use_case.Device.Constants.{pn_status, device_ready, device_busy}
use v_spells_nand_use_case.Device.Deadline.{before_deadline}
use v_spells_nand_use_case.Device.Parser.Messages.{set_byte}
use v_spells_nand_use_case.Device.Rig.{MachineState, Rig}
use v_spells_nand_use_case.Driver.Registers
use v_spells_nand_use_case.Driver.Registers.{nand_set_register}
use v_spells_nand_use_case.Driver.Wait.{moved, gpio_get-Returns}
use v_spells_nand_use_case.Transfer.Execute.{Due}
use v_spells_nand_use_case.Transfer.Phase.{Phase, stored}
use v_spells_nand_use_case.UnitTests.Emulator.{
  store_word, gpio_get, poll_loop, wait_for_device, message, command_word,
}

-- the rig with a command and zeroes in the IO registers
abbrev pub commanded : ℕ → Rig → Rig
commanded command r = stored r (command * 65536)

pub message_lem :
    (command v : ℕ) → command < 256 → v < 65536 → message command v ≡ command * 65536 + v
message_lem command v hc hv =
    let e : command_word command ≡ command * 2 ^ 16 = omega arith in
    rw e (bit_or-add 16 command v (omega arith))

pub store_word-set_register :
    (h : Host) (offset v command word : ℕ) (r : Rig)
    → set_byte (command * 65536) offset (v % 256) ≡ word
    → store_word h word r ≡ nand_set_register h offset v (commanded command r)
unfolding store_word nand_set_register
store_word-set_register h offset v command word r e = rw e refl

module _ (h : Host) (command : ℕ) (small : command < 256) (r : Rig) where
  pub store_command :
      (v : ℕ)
      → v < 256
      → store_word h (command_word v) r ≡ nand_set_register h 2 v (commanded command r)
  store_command v hv = store_word-set_register h 2 v command (command_word v) r (omega arith)

  pub store_address :
      (v : ℕ)
      → v < 256
      → store_word h (message command (v * 256)) r ≡ nand_set_register h 1 v (commanded command r)
  store_address v hv =
      store_word-set_register h 1 v command (message command (v * 256)) r
        (omega (arith, message_lem command (v * 256) small (omega arith)))

  pub store_value :
      (v : ℕ)
      → v < 256
      → store_word h (message command v) r ≡ nand_set_register h 0 v (commanded command r)
  store_value v hv =
      store_word-set_register h 0 v command (message command v) r
        (omega (arith, message_lem command v small (omega arith)))

-- what the emulator answers to a poll
abbrev answered : Bool × Rig → Outcome (ℕ × Rig)
answered (busy, t) = ok ((if busy then device_busy else device_ready), t)

abbrev returned : ℕ × Rig → Outcome (ℕ × Rig)
returned (v, t) = ok (v % 2 ^ 32, t)

abbrev checked : ℕ × Rig → Outcome (ℕ × Rig)
checked (v, t) = if v == Registers.dummy then stop assertion else ok (v % 2 ^ 32, t)

same_poll :
    (o : Outcome (Bool × Rig)) → (o >>= answered >>= returned) ≡ (o >>= answered >>= checked)
same_poll (ok (true, t)) = refl
same_poll (ok (false, t)) = refl
same_poll (stop e) = refl

-- The test's poll is that of the framework.
poll_lem : (h : Host) (r : Rig) → gpio_get h pn_status r ≡ Registers.gpio_get h pn_status r
unfolding gpio_get Registers.gpio_get
poll_lem h r = same_poll (before_deadline h r)

module _ {h : Host} (host : IsHost h) where
  pub Phase-commanded :
      {m : MachineState} {command cursor : ℕ} {d c : Bytes} (r : Rig)
      → command < 256
      → Phase host m command cursor d c r
      → Phase host m command cursor d c (commanded command r)
  Phase-commanded r small p = record {
    state = p.state;
    ready = p.ready;
    command = omega arith;
    at = p.at;
    bounded = p.bounded;
    holds = p.holds;
    cached = p.cached;
  }

  -- Each round but the last sleeps for a millisecond.
  poll_loop-Due :
      (fuel : ℕ) (P : Rig → Type 0) (r : Rig)
      → r.deadline ≤ time host r.instant + 1000 * fuel
      → ((i : ℕ) → r.deadline ≤ time host i → P (moved host i r))
      → Returns h P (poll_loop h (suc fuel) r)
  unfolding poll_loop
  poll_loop-Due zero P r enough after = rw (poll_lem h r) (
      bind (gpio_get-Returns host r) λ (v, t) (et, ev).
        let done : (v == device_ready) ≡ true = ground arith in
        rw (done, et)
          (returns (after (h.resume r.instant) (ground (arith, time-resume host r.instant)))))
  poll_loop-Due (suc fuel) P r enough after = rw (poll_lem h r) (
      bind (gpio_get-Returns host r) λ (v, t) (et, ev). elim (Bool-cases (v == device_ready)) [
        | inl done ↦
            rw (done, et)
              (returns (after (h.resume r.instant) (ground (arith, time-resume host r.instant))))
        | inr busy ↦
            let later = h.usleep 1000 (h.resume r.instant) in
            let on = time-resume host r.instant in
            let slept = time-usleep host 1000 (h.resume r.instant) in
            simp busy (
              subst (λ u. Returns h P (poll_loop h (suc fuel) u))
                (sym (ap (λ (u : Rig). moved host (h.usleep 1000 u.instant) u) et))
                (poll_loop-Due fuel P (moved host later r) (omega arith) after))
      ])

  -- A wait ends after two sleeps or earlier.
  pub wait_for_device-Due :
      (duration : ℕ) (P : Rig → Type 0) (r : Rig)
      → duration ≤ 2000
      → Due host duration P r
      → Returns h P (wait_for_device h r)
  unfolding wait_for_device
  wait_for_device-Due duration P r short due =
      poll_loop-Due 2 P r (omega (arith, due.soon)) due.afterwards
