-- ===== src/Framework/Dib/Frame.antt =====
-- What is well-formed stays so when nodes are written that it does not reach.
use v_spells_nand_use_case.Prelude.{ℕ, ◌≡◌, ◌≢◌, ◌∙◌, refl, sym, some, subst}
use v_spells_nand_use_case.Framework.Dib.{Pointer, Memory, Placed}
use v_spells_nand_use_case.Framework.Dib.Spec.{Chain, end, link, IsStorage, IsController, IsDevice}

-- A chain that does not reach `k` is one for links that differ at `k` only.
Chain-frame :
    {next next' : ℕ → Pointer} {P P' : ℕ → Type 0} {before first last : Pointer} {n : ℕ} (k : ℕ)
    → ((a : ℕ) → next a ≢ some k)
    → ((a : ℕ) → a ≢ k → next' a ≡ next a)
    → ((a : ℕ) → a ≢ k → P a → P' a)
    → first ≢ some k
    → Chain next P before first n last
    → Chain next' P' before first n last
Chain-frame k avoids same kept apart end = end
Chain-frame {next' = next'} {P' = P'} k avoids same kept apart
      (link {last = last} {a = a} {n = n} p chain) =
    let other : a ≢ k = λ e. apart (rw e refl) in
    link (kept a other p) (
      subst (λ q. Chain next' P' (some a) q n last) (sym (same a other))
        (Chain-frame k avoids same kept (avoids a) chain))

-- No other node points to the three nodes.
pub record IsPrivate (at : Placed) (m : Memory) : Type 0 where
  pub device : (a : ℕ) → (m.devices a).next_device ≢ some at.device
  pub controller : (a : ℕ) → a ≢ at.device → (m.devices a).controller ≢ some at.controller
  pub first : (a : ℕ) → a ≢ at.controller → (m.controllers a).first_storage ≢ some at.storage
  pub storage : (a : ℕ) → (m.storages a).next_storage ≢ some at.storage

-- the memories differ in the three nodes only
pub record SameElsewhere (at : Placed) (m m' : Memory) : Type 0 where
  pub device : (a : ℕ) → a ≢ at.device → m'.devices a ≡ m.devices a
  pub controller : (a : ℕ) → a ≢ at.controller → m'.controllers a ≡ m.controllers a
  pub storage : (a : ℕ) → a ≢ at.storage → m'.storages a ≡ m.storages a

module _ {at : Placed} {m m' : Memory} (private : IsPrivate at m)
    (same : SameElsewhere at m m') where
  storage-frame :
      (c p : ℕ) → c ≢ at.controller → p ≢ at.storage → IsStorage m c p → IsStorage m' c p
  storage-frame c p other_c other_p s = record {
    outer = rw (same.controller c other_c, same.storage p other_p) s.outer;
    inner = rw (same.controller c other_c, same.storage p other_p) s.inner;
    counted = rw (same.storage p other_p) s.counted;
  }

  controller-frame : (c : ℕ) → c ≢ at.controller → IsController m c → IsController m' c
  controller-frame c other s = record {
    chips = s.chips;
    few = s.few;
    some_chips = s.some_chips;
    linked = rw (same.controller c other) (
        Chain-frame at.storage private.storage (λ p other_p. rw (same.storage p other_p) refl)
          (λ p other_p. storage-frame c p other other_p) (private.first c other) s.linked);
    counted = rw (same.controller c other) s.counted;
    referenced = rw (same.controller c other) s.referenced;
  }

  device-frame : (d : ℕ) → d ≢ at.device → IsDevice m d → IsDevice m' d
  device-frame d other s =
      let other_c : s.controller ≢ at.controller =
        λ e. private.controller d other (s.linked ∙ rw e refl) in
      record {
        controller = s.controller;
        linked = rw (same.device d other) s.linked;
        formed = controller-frame s.controller other_c s.formed;
        referenced = rw (same.device d other, same.controller s.controller other_c) s.referenced;
      }

  pub devices-frame :
      {before first last : Pointer} {n : ℕ}
      → first ≢ some at.device
      → Chain (λ d. (m.devices d).next_device) (IsDevice m) before first n last
      → Chain (λ d. (m'.devices d).next_device) (IsDevice m') before first n last
  devices-frame apart chain =
      Chain-frame at.device private.device (λ d other. rw (same.device d other) refl) device-frame
        apart chain
