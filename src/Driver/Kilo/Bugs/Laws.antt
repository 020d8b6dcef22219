-- ===== src/Driver/Kilo/Bugs/Laws.antt =====
-- The tester's check of the device information block (tester/st_dib.c) finds each of the intended bugs
-- (driver/kilo/kilo_1.c to kilo_5.c).
use v_spells_nand_use_case.Prelude.{
  ℕ, ◌≡◌, ◌∙◌, Option-cases, refl, arith, none, some, subst, inl, inr, ◌==◌, true,
}
use v_spells_nand_use_case.Outcome.{ok, stop, invalid_access, ◌>>=◌}
use v_spells_nand_use_case.Host.{Host}
use v_spells_nand_use_case.Driver.Interface.{failure, NandDriver, nand_exec_op}
use v_spells_nand_use_case.Driver.Kilo.{register_nand_device, get_driver, link_storage, link_device}
use v_spells_nand_use_case.Driver.Kilo.Bugs.{
  KiloBug, kilo_1, kilo_2, kilo_3, kilo_4, kilo_5, register_alone, register_loose, storage_of,
  controller_of, device_of, register_of, get_driver_of,
}
use v_spells_nand_use_case.Driver.Kilo.Registered.{IsLoaded}
use v_spells_nand_use_case.Framework.Dib.{Pointer, Memory, Placed}
use v_spells_nand_use_case.Framework.Dib.Decision.{Settles-success, Settles-rejected, Settles-cases}
use v_spells_nand_use_case.Framework.Dib.Spec.{
  Chain, IsStorage, IsDevice, IsDib, Chain-head, Chain-empty, Chain-last,
}
use v_spells_nand_use_case.Framework.Dib.Verify.{verify_dib-Settles, formed_at}
use v_spells_nand_use_case.Tester.Dib.{st_dib_test}

-- a block that begins with a device that is not well-formed, and one of a single device
malformed-caught :
    (t : Memory) (old_dib : Pointer) (d : ℕ)
    → ¬ IsDevice t d
    → st_dib_test t old_dib (some d) ≡ ok failure
unfolding st_dib_test
malformed-caught t old_dib d bad =
    rw
      (Settles-rejected (verify_dib-Settles t (some d))
        λ s. let (_, _, formed, _) = Chain-head s.linked in bad formed)
      refl

alone-caught :
    (t : Memory) (old_dib : Pointer) (d : ℕ)
    → (t.devices d).next_device ≡ none
    → st_dib_test t old_dib (some d) ≡ ok failure
unfolding st_dib_test
alone-caught t old_dib d alone = elim (Settles-cases (verify_dib-Settles t (some d))) [
  | inl e ↦ rw (e, alone) refl
  | inr e ↦ rw e refl
]

no_controller : (t : Memory) (d : ℕ) → (t.devices d).controller ≡ none → ¬ IsDevice t d
no_controller t d e s = cc (s.linked)

module _ (t : Memory) (d c : ℕ) (linked : (t.devices d).controller ≡ some c) where
  no_storage : (t.controllers c).first_storage ≡ none → ¬ IsDevice t d
  no_storage e s =
      let (formed, _) = formed_at c linked s in
      let none_at_all = Chain-empty (
        subst
          (λ q.
            Chain (λ p. (t.storages p).next_storage) (IsStorage t c) none q formed.chips
              (t.controllers c).last_storage)
          e formed.linked) in
      omega (arith, formed.some_chips)

  no_references : (t.controllers c).ref_count ≡ 0 → ¬ IsDevice t d
  no_references e s =
      let (formed, _) = formed_at c linked s in omega (arith, formed.some_chips, formed.referenced)

  no_last : (t.controllers c).last_storage ≡ none → ¬ IsDevice t d
  no_last e s =
      let (formed, _) = formed_at c linked s in Chain-last formed.linked (inr formed.some_chips) e

module _ (h : Host) (at : Placed) (m : Memory) where
  -- the device as it is after `next_device` was set
  device_linked :
      (t : Memory) (next : Pointer)
      → (link_device at next t).devices at.device
        ≡ record (t.devices at.device) { next_device = next }
  device_linked t next = let here : (at.device == at.device) ≡ true = ground arith in rw here refl

  -- the memory after the registration
  pub linked_by : KiloBug → Pointer → Memory
  linked_by kilo_1 old_dib = link_device at none (link_storage at m)
  linked_by kilo_5 old_dib = link_device at old_dib m
  linked_by _ old_dib = link_device at old_dib (link_storage at m)

  pub registers_by :
      (bug : KiloBug) (old_dib : Pointer)
      → IsDib m old_dib
      → register_of bug at m old_dib ≡ ok (some at.device, linked_by bug old_dib)
  unfolding register_alone register_loose register_nand_device linked_by
  registers_by kilo_1 old_dib formed =
      rw (Settles-success (verify_dib-Settles m old_dib) formed) refl
  registers_by kilo_2 old_dib formed =
      rw (register_nand_device, Settles-success (verify_dib-Settles m old_dib) formed) refl
  registers_by kilo_3 old_dib formed =
      rw (register_nand_device, Settles-success (verify_dib-Settles m old_dib) formed) refl
  registers_by kilo_4 old_dib formed =
      rw (register_nand_device, Settles-success (verify_dib-Settles m old_dib) formed) refl
  registers_by kilo_5 old_dib formed =
      rw (Settles-success (verify_dib-Settles m old_dib) formed) refl

  abbrev HasNodes : KiloBug → Type 0
  HasNodes bug = IsLoaded (storage_of bug) (controller_of bug h at) (device_of bug at) at m

  -- The registration does not write the controller, and of the device it writes the link to the next.
  controller_kept :
      (bug : KiloBug) (old_dib : Pointer)
      → HasNodes bug
      → (linked_by bug old_dib).controllers at.controller ≡ controller_of bug h at
  unfolding linked_by
  controller_kept kilo_1 old_dib loaded = loaded.controller
  controller_kept kilo_2 old_dib loaded = loaded.controller
  controller_kept kilo_3 old_dib loaded = loaded.controller
  controller_kept kilo_4 old_dib loaded = loaded.controller
  controller_kept kilo_5 old_dib loaded = loaded.controller

  device_kept :
      (bug : KiloBug) (old_dib : Pointer)
      → HasNodes bug
      → ((linked_by bug old_dib).devices at.device).controller ≡ (device_of bug at).controller
  unfolding linked_by
  device_kept kilo_1 old_dib loaded =
      rw (device_linked (link_storage at m) none, loaded.device) refl
  device_kept kilo_2 old_dib loaded =
      rw (device_linked (link_storage at m) old_dib, loaded.device) refl
  device_kept kilo_3 old_dib loaded =
      rw (device_linked (link_storage at m) old_dib, loaded.device) refl
  device_kept kilo_4 old_dib loaded =
      rw (device_linked (link_storage at m) old_dib, loaded.device) refl
  device_kept kilo_5 old_dib loaded = rw (device_linked m old_dib, loaded.device) refl

  next_lost :
      (old_dib : Pointer) → ((linked_by kilo_1 old_dib).devices at.device).next_device ≡ none
  unfolding linked_by
  next_lost old_dib = rw (device_linked (link_storage at m) none) refl

  pub linked_by-caught :
      (bug : KiloBug) (old_dib : Pointer)
      → HasNodes bug
      → st_dib_test (linked_by bug old_dib) old_dib (some at.device) ≡ ok failure
  linked_by-caught kilo_1 old_dib loaded =
      alone-caught (linked_by kilo_1 old_dib) old_dib at.device (next_lost old_dib)
  linked_by-caught kilo_2 old_dib loaded =
      malformed-caught _ old_dib at.device
        (no_controller _ at.device (device_kept kilo_2 old_dib loaded))
  linked_by-caught kilo_3 old_dib loaded = malformed-caught _ old_dib at.device (
      no_storage _ at.device at.controller (device_kept kilo_3 old_dib loaded)
        (rw (controller_kept kilo_3 old_dib loaded) refl))
  linked_by-caught kilo_4 old_dib loaded = malformed-caught _ old_dib at.device (
      no_references _ at.device at.controller (device_kept kilo_4 old_dib loaded)
        (rw (controller_kept kilo_4 old_dib loaded) refl))
  linked_by-caught kilo_5 old_dib loaded = malformed-caught _ old_dib at.device (
      no_last _ at.device at.controller (device_kept kilo_5 old_dib loaded)
        (rw (controller_kept kilo_5 old_dib loaded) refl))

  follows :
      (bug : KiloBug) (old_dib : Pointer)
      → HasNodes bug
      → (device_of bug at).controller ≡ some at.controller
      → (driver : NandDriver) × (get_driver at (linked_by bug old_dib) ≡ ok driver)
  unfolding get_driver
  follows bug old_dib loaded e =
      let linked = device_kept bug old_dib loaded ∙ e in
      elim (Option-cases ((linked_by bug old_dib).controllers at.controller).exec_op) [
        | inl no_run ↦
            (nand_exec_op (λ _ _ _. stop invalid_access), rw (linked, get_driver, no_run) refl)
        | inr (run, has_run) ↦ (nand_exec_op run, rw (linked, get_driver, has_run) refl)
      ]

  -- the framework gets a driver from each of them
  pub gets_driver :
      (bug : KiloBug) (old_dib : Pointer)
      → HasNodes bug
      → (driver : NandDriver) × (get_driver_of bug at (linked_by bug old_dib) ≡ ok driver)
  gets_driver kilo_1 old_dib loaded = follows kilo_1 old_dib loaded refl
  gets_driver kilo_2 old_dib loaded = (_, refl)
  gets_driver kilo_3 old_dib loaded = (_, refl)
  gets_driver kilo_4 old_dib loaded = follows kilo_4 old_dib loaded refl
  gets_driver kilo_5 old_dib loaded = follows kilo_5 old_dib loaded refl

  -- Each of the five registers with a well-formed block that is not empty, and the tester's check of the
  -- block that it returns fails. The driver's nodes are loaded.
  pub register_of-caught :
      (bug : KiloBug) (old : ℕ)
      → IsLoaded (storage_of bug) (controller_of bug h at) (device_of bug at) at m
      → IsDib m (some old)
      → (register_of bug at m (some old) >>= λ (dib_new, t). st_dib_test t (some old) dib_new)
        ≡ ok failure
  register_of-caught bug old loaded formed =
      rw (registers_by bug (some old) formed) (linked_by-caught bug (some old) loaded)
