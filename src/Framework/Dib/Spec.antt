-- ===== src/Framework/Dib/Spec.antt =====
-- When a device information block is well-formed, said of the nodes as a whole.
use v_spells_nand_use_case.Prelude.{
  ℕ, zero, suc, ◌+◌, ◌≤◌, ◌<◌, ◌≡◌, ◌≢◌, ◌⊎◌, none, some, refl, ap, arith, inl, inr,
}
use v_spells_nand_use_case.Framework.Dib.{Pointer, max_nand_devices, max_storage_chips, Memory}

-- A chain of `n` nodes from the first pointer to the last, each of which has `P`. The pointer before the
-- chain is its last one where it has no node.
pub data Chain (next : ℕ → Pointer) (P : ℕ → Type 0)
    : (before first : Pointer) (n : ℕ) (last : Pointer) → Type 0 where
  end : {last : Pointer} → Chain next P last none zero last
  link :
      {before last : Pointer} {a n : ℕ}
      → P a
      → Chain next P (some a) (next a) n last
      → Chain next P before (some a) (suc n) last

-- The first and the last storage chip point to their controller, those between them nowhere.
pub record IsStorage (m : Memory) (c p : ℕ) : Type 0 where
  pub outer :
      ((m.controllers c).first_storage ≡ some p) ⊎ ((m.controllers c).last_storage ≡ some p)
      → (m.storages p).controller ≡ some c
  pub inner :
      (m.controllers c).first_storage ≢ some p
      → (m.controllers c).last_storage ≢ some p
      → (m.storages p).controller ≡ none
  pub counted : (m.storages p).ref_count ≡ 1

-- A controller has one to eight storage chips, ends at the last of them, and counts them.
pub record IsController (m : Memory) (c : ℕ) : Type 0 where
  pub chips : ℕ
  pub few : chips ≤ max_storage_chips
  pub some_chips : 0 < chips
  pub linked :
      Chain
        (λ p. (m.storages p).next_storage)
        (IsStorage m c)
        none
        (m.controllers c).first_storage
        chips
        (m.controllers c).last_storage
  pub counted : (m.controllers c).nstorage ≡ chips
  pub referenced : (m.controllers c).ref_count ≡ chips

-- A device has a controller, and one reference more than it.
pub record IsDevice (m : Memory) (d : ℕ) : Type 0 where
  pub controller : ℕ
  pub linked : (m.devices d).controller ≡ some controller
  pub formed : IsController m controller
  pub referenced : (m.devices d).ref_count ≡ (m.controllers controller).ref_count + 1

-- at most 64 devices; none is well-formed, too
pub record IsDib (m : Memory) (dib : Pointer) : Type 0 where
  pub count : ℕ
  pub last : Pointer
  pub few : count ≤ max_nand_devices
  pub linked : Chain (λ d. (m.devices d).next_device) (IsDevice m) none dib count last

-- a node has at most one chain
pub Chain-unique :
    {next : ℕ → Pointer} {P : ℕ → Type 0} {before first l l' : Pointer} {n n' : ℕ}
    → Chain next P before first n l
    → Chain next P before first n' l'
    → (n ≡ n') × (l ≡ l')
Chain-unique end end = (refl, refl)
Chain-unique (link p c) (link q c') = let (e, f) = Chain-unique c c' in (ap suc e, f)

pub Chain-head :
    {next : ℕ → Pointer} {P : ℕ → Type 0} {before last : Pointer} {a n : ℕ}
    → Chain next P before (some a) n last
    → (k : ℕ) × (n ≡ suc k) × P a × Chain next P (some a) (next a) k last
Chain-head (link {n = k} p c) = (k, refl, p, c)

pub Chain-empty :
    {next : ℕ → Pointer} {P : ℕ → Type 0} {before last : Pointer} {n : ℕ}
    → Chain next P before none n last
    → n ≡ 0
Chain-empty end = refl

pub Chain-single :
    {next : ℕ → Pointer} {P : ℕ → Type 0} {before : Pointer} (a : ℕ)
    → P a
    → next a ≡ none
    → Chain next P before (some a) 1 (some a)
Chain-single a p e = link p (rw e end)

-- what stands before a chain matters only where it has no node
pub rebase :
    {next : ℕ → Pointer} {P : ℕ → Type 0} {before before' last : Pointer} {a n : ℕ}
    → Chain next P before (some a) n last
    → Chain next P before' (some a) n last
rebase (link p c) = link p c

-- a chain behind a node, or with one, ends at a node
pub Chain-last :
    {next : ℕ → Pointer} {P : ℕ → Type 0} {before first last : Pointer} {n : ℕ}
    → Chain next P before first n last
    → (before ≢ none) ⊎ (0 < n)
    → last ≢ none
Chain-last end (inl apart) = apart
Chain-last end (inr never) = absurd (omega arith)
Chain-last (link p chain) h = Chain-last chain (inl (λ e. cc))
