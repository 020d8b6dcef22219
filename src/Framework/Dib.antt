-- ===== src/Framework/Dib.antt =====
-- The device information block (framework/framework.h) and its verification (framework/fw_dib.c), without
-- the messages and the device's name. Nodes lie at addresses; a pointer that is not `NULL` points to a node. Each loop takes as
-- fuel one round more than the nodes that it accepts.
pub mod Spec
pub mod Decision
pub mod Controller
pub mod Verify
pub mod Frame
pub mod Single
use v_spells_nand_use_case.Prelude.{
  ℕ, zero, suc, ◌+◌, ◌%◌, ◌^◌, Option, none, some, Bool, true, false, ◌||◌, not, ltb, ◌==◌,
  if◌then◌else◌,
}
use v_spells_nand_use_case.Outcome.{Outcome, ok, stop, out_of_fuel, ◌>>=◌}
use v_spells_nand_use_case.Driver.Interface.{Code, success, failure}
use v_spells_nand_use_case.Framework.ExecOp.{Interpreter}

-- `none` is `NULL`
abbrev pub Pointer : Type 0
Pointer = Option ℕ

abbrev pub max_nand_devices : ℕ
max_nand_devices = 64

abbrev pub max_storage_chips : ℕ
max_storage_chips = 8

pub record StorageChip : Type 0 where
  pub nblocks : ℕ
  pub npages_per_block : ℕ
  pub nbytes_per_page : ℕ
  pub next_storage : Pointer
  pub controller : Pointer
  pub ref_count : ℕ

pub record ControllerChip : Type 0 where
  pub nstorage : ℕ
  pub first_storage : Pointer
  pub last_storage : Pointer
  pub exec_op : Option Interpreter
  pub ref_count : ℕ

pub record NandDevice : Type 0 where
  pub controller : Pointer
  pub next_device : Pointer
  pub ref_count : ℕ

-- the node of each type at an address
pub record Memory : Type 0 where
  pub storages : ℕ → StorageChip
  pub controllers : ℕ → ControllerChip
  pub devices : ℕ → NandDevice

-- assignments to a node
abbrev pub put_storage : ℕ → StorageChip → Memory → Memory
put_storage p node m = record m { storages = λ a. if a == p then node else m.storages a }

abbrev pub put_controller : ℕ → ControllerChip → Memory → Memory
put_controller c node m = record m { controllers = λ a. if a == c then node else m.controllers a }

abbrev pub put_device : ℕ → NandDevice → Memory → Memory
put_device d node m = record m { devices = λ a. if a == d then node else m.devices a }

-- where the three static nodes of a program lie
pub record Placed : Type 0 where
  pub storage : ℕ
  pub controller : ℕ
  pub device : ℕ

-- `==` on pointers
abbrev pub same_pointer : Pointer → Pointer → Bool
same_pointer none none = true
same_pointer none (some b) = false
same_pointer (some a) none = false
same_pointer (some a) (some b) = a == b

unfoldable pub verify_storage : Memory → ℕ → ℕ → Code
verify_storage m c p =
    let p_controller = m.controllers c in
    let p_storage = m.storages p in
    let linked =
      if same_pointer p_controller.first_storage (some p)
        || same_pointer p_controller.last_storage (some p)
      then same_pointer p_storage.controller (some c)
      else same_pointer p_storage.controller none in
    if not linked then failure else (if not (p_storage.ref_count == 1) then failure else success)

-- the loop over the storage chips, with `sc_count` and `p_last`; it ends with both, or with -1
unfoldable pub storage_loop :
    Memory → ℕ → (fuel sc_count : ℕ) (p_last p_sc : Pointer) → Outcome (Option (ℕ × Pointer))
unfolding verify_storage
storage_loop m c fuel sc_count p_last none = ok (some (sc_count, p_last))
storage_loop m c zero sc_count p_last (some p) = stop out_of_fuel
storage_loop m c (suc fuel) sc_count p_last (some p) =
    let rest = storage_loop m c fuel (sc_count + 1) (some p) (m.storages p).next_storage in
    if ltb max_storage_chips (sc_count + 1)
    then ok none
    else elim (verify_storage m c p) [ failure ↦ ok none | success ↦ rest ]

-- what follows the loop: `p_last` and the counts
unfoldable pub check_counts : ControllerChip → ℕ → Pointer → Code
check_counts p_controller sc_count p_last =
    if not (same_pointer p_controller.last_storage p_last)
    then failure
    else (if not (p_controller.ref_count == p_controller.nstorage)
          || not (p_controller.nstorage == sc_count)
        then failure
        else success)

-- `p_last` is not set before the loop, which sets it, since there is a first chip.
unfoldable pub verify_controller : Memory → ℕ → Outcome Code
unfolding storage_loop check_counts
verify_controller m c =
    let p_controller = m.controllers c in
    elim p_controller.first_storage [
      | none ↦ ok failure
      | some p ↦ storage_loop m c (max_storage_chips + 1) 0 none (some p) >>= λ walk. elim walk [
        | none ↦ ok failure
        | some (sc_count, p_last) ↦ ok (check_counts p_controller sc_count p_last)
      ]
    ]

unfoldable pub verify_device : Memory → ℕ → Outcome Code
unfolding verify_controller
verify_device m d = elim (m.devices d).controller [
  | none ↦ ok failure
  | some c ↦ verify_controller m c >>= λ code. elim code [
    | failure ↦ ok failure
    | success ↦ ok (
        if (m.devices d).ref_count == ((m.controllers c).ref_count + 1) % 2 ^ 32
        then success
        else failure)
  ]
]

-- the loop over the devices, with `device_count`
unfoldable pub device_loop : Memory → (fuel device_count : ℕ) → Pointer → Outcome Code
unfolding verify_device
device_loop m fuel device_count none = ok success
device_loop m zero device_count (some d) = stop out_of_fuel
device_loop m (suc fuel) device_count (some d) =
    let rest = device_loop m fuel (device_count + 1) (m.devices d).next_device in
    if ltb max_nand_devices (device_count + 1)
    then ok failure
    else verify_device m d >>= λ code. elim code [ failure ↦ ok failure | success ↦ rest ]

unfoldable pub verify_dib : Memory → Pointer → Outcome Code
unfolding device_loop
verify_dib m dib = device_loop m (max_nand_devices + 1) 0 dib
