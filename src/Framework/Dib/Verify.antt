-- ===== src/Framework/Dib/Verify.antt =====
-- The verification (framework/fw_dib.c) returns for every memory, and accepts exactly the well-formed blocks.
use v_spells_nand_use_case.Prelude.{
  ℕ, zero, suc, ◌+◌, ◌%◌, ◌^◌, ◌≤◌, ◌≡◌, ◌∙◌, sym, arith, inl, inr, none, some, subst, ltb,
  Bool-cases, Option-cases, ==-Reflects,
}
use v_spells_nand_use_case.Framework.Dib.{
  Pointer, max_nand_devices, Memory, verify_device, device_loop, verify_dib,
}
use v_spells_nand_use_case.Framework.Dib.Spec.{
  Chain, end, link, IsController, IsDevice, IsDib, Chain-head,
}
use v_spells_nand_use_case.Framework.Dib.Decision.{
  accepts, Settles, Settles-failure, Settles-then, Settles-Decides, Settles-map, Decides-if,
}
use v_spells_nand_use_case.Framework.Dib.Controller.{verify_controller-Settles}

pub formed_at :
    {m : Memory} {d : ℕ} (c : ℕ)
    → (m.devices d).controller ≡ some c
    → IsDevice m d
    → IsController m c × ((m.devices d).ref_count ≡ (m.controllers c).ref_count + 1)
formed_at {m} {d} c e s =
    let same : s.controller ≡ c = cc (s.linked) in
    subst (λ k. IsController m k × ((m.devices d).ref_count ≡ (m.controllers k).ref_count + 1)) same
      (s.formed, s.referenced)

verify_device-Settles : (m : Memory) (d : ℕ) → Settles (IsDevice m d) (verify_device m d)
unfolding verify_device
verify_device-Settles m d = elim (Option-cases (m.devices d).controller) [
  | inl e ↦ rw (e, verify_device) (Settles-failure λ s. cc (s.linked))
  | inr (c, e) ↦
      rw (e, verify_device)
        (Settles-then (verify_controller-Settles m c) (λ s. (formed_at c e s).0)
          λ formed.
            let wrap : ((m.controllers c).ref_count + 1) % 2 ^ 32
                ≡ (m.controllers c).ref_count + 1 =
              omega (arith, formed.referenced, formed.few) in
            Settles-Decides (
              Decides-if
                (==-Reflects (m.devices d).ref_count (((m.controllers c).ref_count + 1) % 2 ^ 32))
                (λ e'. record {
                  controller = c;
                  linked = e;
                  formed = formed;
                  referenced = e' ∙ wrap;
                })
                (λ s. (formed_at c e s).1 ∙ sym wrap)))
]

-- the devices from `first` on are well-formed, and `count` others leave room for them
abbrev Remaining : Memory → (before first : Pointer) → ℕ → Type 0
Remaining m before first count =
    (n : ℕ) × (last : Pointer) × (count + n ≤ max_nand_devices)
    × Chain (λ d. (m.devices d).next_device) (IsDevice m) before first n last

device_loop-Settles :
    (m : Memory) (fuel count : ℕ) (before first : Pointer)
    → count ≤ max_nand_devices
    → count + fuel ≡ max_nand_devices + 1
    → Settles (Remaining m before first count) (device_loop m fuel count first)
unfolding device_loop
device_loop-Settles m fuel count before none few enough =
    Settles-Decides (accepts (zero, before, omega arith, end))
device_loop-Settles m zero count before (some d) few enough = absurd (omega arith)
device_loop-Settles m (suc fuel) count before (some d) few enough =
    elim (Bool-cases (ltb max_nand_devices (count + 1))) [
      | inl full ↦ rw full (
          Settles-failure
            λ (n, last, room, chain). let (k, one, _, _) = Chain-head chain in ground arith)
      | inr room ↦ rw room (
          Settles-then (verify_device-Settles m d)
            (λ (n, last, fits, chain). let (_, _, s, _) = Chain-head chain in s)
            λ formed.
              Settles-map
                (device_loop-Settles m fuel (count + 1) (some d) (m.devices d).next_device
                  (ground arith) (omega arith))
                (λ (n, last, fits, chain). (suc n, last, omega arith, link formed chain))
                (λ (n, last, fits, chain).
                  let (k, one, _, after) = Chain-head chain in (k, last, omega arith, after)))
    ]

-- `verify_dib` returns for every memory, one with cycles, too: with success if the block is well-formed, and
-- with -1 if it is not.
pub verify_dib-Settles : (m : Memory) (dib : Pointer) → Settles (IsDib m dib) (verify_dib m dib)
unfolding verify_dib
verify_dib-Settles m dib =
    Settles-map
      (device_loop-Settles m (max_nand_devices + 1) 0 none dib (omega arith) (omega arith))
      (λ (n, last, fits, chain). record {
        count = n;
        last = last;
        few = omega arith;
        linked = chain;
      })
      (λ s. (s.count, s.last, omega (arith, s.few), s.linked))
