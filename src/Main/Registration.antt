-- ===== src/Main/Registration.antt =====
-- The child process (main/main.c) with the drivers of driver/kilo/, which add a device to
-- the tester's block.
use v_spells_nand_use_case.Prelude.{
  ◌≡◌, ◌≢◌, refl, arith, some, inl, inr, Bool-cases, ◌==◌, false, true,
}
use v_spells_nand_use_case.Outcome.{ok}
use v_spells_nand_use_case.Host.{Host}
use v_spells_nand_use_case.Clock.Laws.{IsHost, Returns}
use v_spells_nand_use_case.Device.IoRegs.Laws.{IsDecodable}
use v_spells_nand_use_case.Driver.Interface.{success, failure}
use v_spells_nand_use_case.Main.{Mode, kilo_0, kilo_bug, init_framework, Start, run_child}
use v_spells_nand_use_case.Framework.Dib.{StorageChip, ControllerChip, NandDevice, Memory, Placed}
use v_spells_nand_use_case.Driver.Kilo.Bugs.{
  KiloBug, storage_of, controller_of, device_of, register_of,
}
use v_spells_nand_use_case.Driver.Kilo.Bugs.Laws.{
  linked_by, registers_by, gets_driver, linked_by-caught,
}
use v_spells_nand_use_case.Driver.Kilo.Registered.{
  IsLoaded, linked, registers, linked-tested, linked-get_driver,
}
use v_spells_nand_use_case.Driver.Foxtrot.{interpreter}
use v_spells_nand_use_case.Driver.Kilo.{
  register_nand_device, get_driver, kilo_storage_chip, kilo_controller_chip, kilo_device,
}
use v_spells_nand_use_case.Framework.Dib.Spec.{IsDib, Chain-single}
use v_spells_nand_use_case.Framework.Dib.Single.{IsSingle, single-IsDevice}
use v_spells_nand_use_case.Framework.Dib.Frame.{IsPrivate}
use v_spells_nand_use_case.Tester.Dib.{
  init_storage, init_controller, init_device, st_dib_init, st_dib_test,
}
use v_spells_nand_use_case.Tester.Libc.{Libc}
use v_spells_nand_use_case.Transfer.Correct.{interpreter-IsCorrect}
use v_spells_nand_use_case.Main.Child.{IsReadyFor, run_tests-passes}

-- the tester's block once it is initialised
module _ (at : Placed) (m : Memory)
    (loaded : IsLoaded init_storage (init_controller at) (init_device at) at m) where
  initial : Memory
  initial = (st_dib_init at m).1

  initial_storage :
      initial.storages at.storage ≡ record init_storage { controller = some at.controller }
  unfolding initial st_dib_init
  initial_storage =
      let here : (at.storage == at.storage) ≡ true = ground arith in rw (here, loaded.storage) refl

  initial-IsSingle : IsSingle initial at
  unfolding initial st_dib_init
  initial-IsSingle = record {
    next_storage = rw initial_storage refl;
    storage_link = rw initial_storage refl;
    storage_count = rw initial_storage refl;
    first_storage = rw loaded.controller refl;
    last_storage = rw loaded.controller refl;
    nstorage = rw loaded.controller refl;
    controller_count = rw loaded.controller refl;
    device_link = rw loaded.device refl;
    device_count = rw loaded.device refl;
  }

  initial-IsDib : IsDib initial (some at.device)
  unfolding initial st_dib_init
  initial-IsDib = record {
    count = 1;
    last = some at.device;
    few = omega arith;
    linked = Chain-single at.device (single-IsDevice initial-IsSingle) (rw loaded.device refl);
  }

  -- A driver's nodes, apart from those of the tester, are as they were.
  initial-IsLoaded :
      {chip : StorageChip} {hub : ControllerChip} {top : NandDevice} (at' : Placed)
      → at.storage ≢ at'.storage
      → IsLoaded chip hub top at' m
      → IsLoaded chip hub top at' initial
  unfolding initial st_dib_init
  initial-IsLoaded at' other loaded' = record {
    storage =
        let apart : (at'.storage == at.storage) ≡ false = ground arith in
        rw (apart, loaded'.storage) refl;
    controller = loaded'.controller;
    device = loaded'.device;
  }

  -- With each of kilo_1 to kilo_5 the child's check of the new block fails, and it returns -1 before any test.
  -- The two programs' nodes are loaded and apart.
  pub run_child-kilo_bug :
      (h : Host) (at' : Placed) (bug : KiloBug)
      → at.device ≢ at'.device
      → at.storage ≢ at'.storage
      → IsLoaded (storage_of bug) (controller_of bug h at') (device_of bug at') at' m
      → (libc : Libc) (mode : Mode) (start : Start)
      → run_child libc (kilo_bug bug at') mode at m start ≡ ok failure
  unfolding run_child init_framework st_dib_init initial
  run_child-kilo_bug h at' bug other_device other_storage loaded' libc mode start =
      let nodes = initial-IsLoaded at' other_storage loaded' in
      let apart : (at.device == at'.device) ≡ false = ground arith in
      let registered : register_of bug at' initial (some at.device)
          ≡ ok (some at'.device, linked_by h at' initial bug (some at.device)) =
        registers_by h at' initial bug (some at.device) initial-IsDib in
      let (driver, got) = gets_driver h at' initial bug (some at.device) nodes in
      let caught = linked_by-caught h at' initial bug (some at.device) nodes in
      rw (registered, got, apart, caught) refl

  module _ (h : Host) (at' : Placed) (other_device : at.device ≢ at'.device)
      (other_storage : at.storage ≢ at'.storage)
      (loaded' : IsLoaded kilo_storage_chip (kilo_controller_chip h at') (kilo_device at') at' m)
      (private : IsPrivate at' m) where
    initial-IsPrivate : IsPrivate at' initial
    unfolding initial st_dib_init
    initial-IsPrivate = record {
      device = private.device;
      controller = private.controller;
      first = private.first;
      storage = λ a e. elim (Bool-cases (a == at.storage)) [
        | inl here ↦ private.storage at.storage (rw here at e)
        | inr apart ↦ private.storage a (rw apart at e)
      ];
    }

    -- With kilo_0 the child's check of the new block passes, and so do its tests: it returns 0, if the clock can
    -- be read. The two programs' nodes are loaded and apart, no other node points to those of the driver,
    -- the device is idle and holds the mirror's bytes at first, memory does not run out, and the random
    -- numbers pass the stochastic test's assertions.
    pub run_child-kilo_0 :
        (host : IsHost h)
        → IsDecodable h
        → (libc : Libc) (mode : Mode) (start : Start) → IsReadyFor host libc mode start
        → Returns h (λ code. code ≡ success) (run_child libc (kilo_0 at') mode at m start)
    unfolding run_child init_framework st_dib_init initial initial-IsDib
    run_child-kilo_0 host decodable libc mode start ready =
        let nodes = initial-IsLoaded at' other_storage loaded' in
        let t = linked h at' initial nodes (some at.device) in
        let apart : (at.device == at'.device) ≡ false = ground arith in
        let registered : register_nand_device at' initial (some at.device)
            ≡ ok (some at'.device, t) =
          registers h at' initial nodes (some at.device) initial-IsDib in
        let got : get_driver at' t ≡ ok (interpreter h) =
          linked-get_driver h at' initial nodes (some at.device) in
        let tested : st_dib_test t (some at.device) (some at'.device) ≡ ok success =
          linked-tested h at' initial nodes at.device initial-IsDib (omega arith) initial-IsPrivate
            other_device in
        rw (registered, got, apart, tested)
          (run_tests-passes (interpreter-IsCorrect host decodable) libc mode start ready)
