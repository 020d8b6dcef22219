-- ===== src/Framework/Dib/Single.antt =====
-- A device with one controller and one storage chip.
use v_spells_nand_use_case.Prelude.{◌≡◌, ◌∙◌, refl, arith, none, some}
use v_spells_nand_use_case.Framework.Dib.{Memory, Placed}
use v_spells_nand_use_case.Framework.Dib.Spec.{IsStorage, IsController, IsDevice, Chain-single}

-- the fields of the three nodes that make them such a device
pub record IsSingle (m : Memory) (at : Placed) : Type 0 where
  pub next_storage : (m.storages at.storage).next_storage ≡ none
  pub storage_link : (m.storages at.storage).controller ≡ some at.controller
  pub storage_count : (m.storages at.storage).ref_count ≡ 1
  pub first_storage : (m.controllers at.controller).first_storage ≡ some at.storage
  pub last_storage : (m.controllers at.controller).last_storage ≡ some at.storage
  pub nstorage : (m.controllers at.controller).nstorage ≡ 1
  pub controller_count : (m.controllers at.controller).ref_count ≡ 1
  pub device_link : (m.devices at.device).controller ≡ some at.controller
  pub device_count : (m.devices at.device).ref_count ≡ 2

module _ {m : Memory} {at : Placed} (single : IsSingle m at) where
  single-IsStorage : IsStorage m at.controller at.storage
  single-IsStorage = record {
    outer = λ e. single.storage_link;
    inner = λ e. absurd (e single.first_storage);
    counted = single.storage_count;
  }

  single-IsController : IsController m at.controller
  single-IsController = record {
    chips = 1;
    few = omega arith;
    some_chips = omega arith;
    linked =
        rw (single.first_storage, single.last_storage)
          (Chain-single at.storage single-IsStorage single.next_storage);
    counted = single.nstorage;
    referenced = single.controller_count;
  }

  pub single-IsDevice : IsDevice m at.device
  single-IsDevice = record {
    controller = at.controller;
    linked = single.device_link;
    formed = single-IsController;
    referenced = single.device_count ∙ rw single.controller_count refl;
  }
