-- ===== src/Scenarios/Blocks.antt =====
-- Concrete memories for the device information block.
use v_spells_nand_use_case.Prelude.{
  ℕ, sym, ◌∙◌, ◌*◌, ◌≡◌, ◌≢◌, refl, arith, none, some, subst, inl, inr, Bool-cases, ◌==◌,
  if◌then◌else◌,
}
use v_spells_nand_use_case.Clock.Laws.{Returns}
use v_spells_nand_use_case.Outcome.{ok, ◌>>=◌}
use v_spells_nand_use_case.Driver.Interface.{success, failure}
use v_spells_nand_use_case.Driver.Kilo.{
  kilo_storage_chip, kilo_controller_chip, kilo_device, register_nand_device,
}
use v_spells_nand_use_case.Driver.Kilo.Bugs.{kilo_5, open_controller}
use v_spells_nand_use_case.Driver.Kilo.Registered.{IsLoaded, register_nand_device-st_dib_test}
use v_spells_nand_use_case.Framework.Dib.{
  StorageChip, ControllerChip, NandDevice, Pointer, Memory, Placed, verify_dib,
}
use v_spells_nand_use_case.Framework.Dib.Decision.{Settles}
use v_spells_nand_use_case.Framework.Dib.Frame.{IsPrivate}
use v_spells_nand_use_case.Framework.Dib.Spec.{IsDib, Chain-single}
use v_spells_nand_use_case.Framework.Dib.Single.{single-IsDevice}
use v_spells_nand_use_case.Framework.Dib.Verify.{verify_dib-Settles}
use v_spells_nand_use_case.Main.{
  cl_stochastic, Start, cl_deterministic, alpha_0, foxtrot_0, kilo_0, kilo_bug, run_child,
}
use v_spells_nand_use_case.Main.Child.{IsReadyFor, run_child-passes}
use v_spells_nand_use_case.Main.Registration.{run_child-kilo_0, run_child-kilo_bug}
use v_spells_nand_use_case.Scenarios.{test_host, test_host-IsHost, zeroes, counting, small_bytes}
use v_spells_nand_use_case.Scenarios.Tests.{
  test_libc, test_session, test_session-IsMirrored, test_libc-IsAllocating, three_tests-AreDrawable,
}
use v_spells_nand_use_case.Tester.Stochastic.{num_ops}
use v_spells_nand_use_case.Tester.Stochastic.Passes.{AreDrawable}
use v_spells_nand_use_case.Tester.Dib.{init_storage, init_controller, init_device, st_dib_test}

-- the tester's nodes at 1, and those of a driver at 2
abbrev tester_place : Placed
tester_place = record { storage = 1; controller = 1; device = 1 }

abbrev driver_place : Placed
driver_place = record { storage = 2; controller = 2; device = 2 }

-- a memory with those nodes, and with nodes at the other addresses that point nowhere
abbrev memory_with : StorageChip → StorageChip → ControllerChip → NandDevice → Memory
memory_with tester_chip chip hub top = record {
  storages = λ a. if a == 1 then tester_chip else (if a == 2 then chip else init_storage);
  controllers = λ a.
      if a == 1
      then init_controller tester_place
      else (if a == 2 then hub else record hub { first_storage = none; last_storage = none });
  devices = λ a.
      if a == 1
      then init_device tester_place
      else (if a == 2 then top else record top { controller = none; next_device = none });
}

abbrev kilo_memory : Memory
kilo_memory =
    memory_with init_storage kilo_storage_chip (kilo_controller_chip test_host driver_place)
      (kilo_device driver_place)

-- the same once the tester's storage chip is linked
abbrev linked_storage : StorageChip
linked_storage = record init_storage { controller = some 1 }

abbrev block_memory : Memory
block_memory =
    memory_with linked_storage kilo_storage_chip (kilo_controller_chip test_host driver_place)
      (kilo_device driver_place)

none-some : {b : ℕ} → none ≢ some b
none-some e = cc

one_two : ◌≢◌ {A = Pointer} (some 1) (some 2)
one_two e = ground arith

picked :
    {A : Type 0} (P : A → Type 0) (a : ℕ) {x y z : A}
    → P x
    → (a ≡ 2 → P y)
    → P z
    → P (if a == 1 then x else (if a == 2 then y else z))
picked P a first second other = elim (Bool-cases (a == 1)) [
  | inl e ↦ rw e first
  | inr e ↦ elim (Bool-cases (a == 2)) [
    | inl e' ↦ rw (e, e') (second (ground arith))
    | inr e' ↦ rw (e, e') other
  ]
]

-- either memory, with the tester's chip as loaded or linked
module _ (tester_chip : StorageChip) (last : tester_chip.next_storage ≡ none) where
  abbrev either_memory : Memory
  either_memory =
      memory_with tester_chip kilo_storage_chip (kilo_controller_chip test_host driver_place)
        (kilo_device driver_place)

  either_memory-IsPrivate : IsPrivate driver_place either_memory
  either_memory-IsPrivate = record {
    device = λ a.
        picked (λ (t : NandDevice). t.next_device ≢ some 2) a none-some (λ _. none-some) none-some;
    controller = λ a other.
        picked (λ (t : NandDevice). t.controller ≢ some 2) a one_two (λ same. absurd (other same))
          none-some;
    first = λ a other.
        picked (λ (t : ControllerChip). t.first_storage ≢ some 2) a one_two
          (λ same. absurd (other same)) none-some;
    storage = λ a.
        picked (λ (t : StorageChip). t.next_storage ≢ some 2) a (λ e. none-some (sym last ∙ e))
          (λ _. none-some) none-some;
  }

  either_memory-IsLoaded :
      IsLoaded kilo_storage_chip
        (kilo_controller_chip test_host driver_place)
        (kilo_device driver_place)
        driver_place
        either_memory
  either_memory-IsLoaded = record { storage = refl; controller = refl; device = refl }

block_memory-IsDib : IsDib block_memory (some 1)
block_memory-IsDib = record {
  count = 1;
  last = some 1;
  few = omega arith;
  linked =
      Chain-single 1
        (single-IsDevice {at = tester_place} (record {
          next_storage = refl;
          storage_link = refl;
          storage_count = refl;
          first_storage = refl;
          last_storage = refl;
          nstorage = refl;
          controller_count = refl;
          device_link = refl;
          device_count = refl;
        }))
        refl;
}

verify_dib-Settles_example :
    Settles (IsDib block_memory (some 1)) (verify_dib block_memory (some 1))
verify_dib-Settles_example = verify_dib-Settles block_memory (some 1)

register_nand_device-st_dib_test_example :
    (register_nand_device driver_place block_memory (some 1) >>= λ (dib_new, t).
    st_dib_test t (some 1) dib_new)
    ≡ ok success
unfolding block_memory-IsDib
register_nand_device-st_dib_test_example =
    register_nand_device-st_dib_test test_host driver_place block_memory
      (either_memory-IsLoaded linked_storage refl) 1 block_memory-IsDib (omega arith)
      (either_memory-IsPrivate linked_storage refl) (omega arith)

abbrev test_start : Start
test_start = record { session = test_session; data_array = counting; dest = zeroes }

test_start-IsReadyFor : IsReadyFor test_host-IsHost test_libc (cl_stochastic 3) test_start
test_start-IsReadyFor = record {
  mirrored = test_session-IsMirrored;
  data_bytes = small_bytes;
  allocating = test_libc-IsAllocating;
  drawable = λ num_tests e.
      let same : 3 ≡ num_tests = cc in
      subst (λ n. AreDrawable test_libc 0 (n * num_ops)) same three_tests-AreDrawable;
}

run_child-passes_example :
    Returns test_host
      (λ code. code ≡ success)
      (run_child test_libc
        (alpha_0 test_host)
        (cl_stochastic 3)
        tester_place
        kilo_memory
        test_start)
    × Returns test_host
        (λ code. code ≡ success)
        (run_child test_libc
          (foxtrot_0 test_host)
          (cl_stochastic 3)
          tester_place
          kilo_memory
          test_start)
run_child-passes_example =
    run_child-passes test_host-IsHost refl test_libc (cl_stochastic 3) test_start
      test_start-IsReadyFor tester_place kilo_memory

kilo_memory-IsLoaded :
    IsLoaded init_storage
      (init_controller tester_place)
      (init_device tester_place)
      tester_place
      kilo_memory
kilo_memory-IsLoaded = record { storage = refl; controller = refl; device = refl }

run_child-kilo_0_example :
    Returns test_host
      (λ code. code ≡ success)
      (run_child test_libc
        (kilo_0 driver_place)
        (cl_stochastic 3)
        tester_place
        kilo_memory
        test_start)
run_child-kilo_0_example =
    run_child-kilo_0 tester_place kilo_memory kilo_memory-IsLoaded test_host driver_place
      (omega arith) (omega arith) (either_memory-IsLoaded init_storage refl)
      (either_memory-IsPrivate init_storage refl) test_host-IsHost refl test_libc (cl_stochastic 3)
      test_start test_start-IsReadyFor

-- the memory of kilo_5, whose controller has no last storage chip
abbrev open_memory : Memory
open_memory =
    memory_with init_storage kilo_storage_chip (open_controller test_host driver_place)
      (kilo_device driver_place)

open_memory-IsLoaded :
    IsLoaded init_storage
      (init_controller tester_place)
      (init_device tester_place)
      tester_place
      open_memory
open_memory-IsLoaded = record { storage = refl; controller = refl; device = refl }

open_memory-HasNodes :
    IsLoaded kilo_storage_chip
      (open_controller test_host driver_place)
      (kilo_device driver_place)
      driver_place
      open_memory
open_memory-HasNodes = record { storage = refl; controller = refl; device = refl }

run_child-kilo_bug_example :
    run_child test_libc
      (kilo_bug kilo_5 driver_place)
      cl_deterministic
      tester_place
      open_memory
      test_start
    ≡ ok failure
run_child-kilo_bug_example =
    run_child-kilo_bug tester_place open_memory open_memory-IsLoaded test_host driver_place kilo_5
      (omega arith) (omega arith) open_memory-HasNodes test_libc cl_deterministic test_start
