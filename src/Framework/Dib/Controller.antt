-- ===== src/Framework/Dib/Controller.antt =====
-- The verification of a controller and its storage chips (framework/fw_dib.c).
use v_spells_nand_use_case.Prelude.{
  ℕ, zero, suc, ◌+◌, ◌≤◌, ◌<◌, ◌≡◌, ◌≢◌, ◌∙◌, ◌⊎◌, refl, sym, ap, arith, inl, inr, none, some,
  Option, subst, ltb, Bool-cases, Option-cases, Reflects, holds, fails, Reflects-map, Reflects-or,
  Reflects-if, ==-Reflects,
}
use v_spells_nand_use_case.Outcome.{Outcome, ok}
use v_spells_nand_use_case.Driver.Interface.{Code, success, failure}
use v_spells_nand_use_case.Framework.Dib.{
  Pointer, max_storage_chips, Memory, same_pointer, verify_storage, storage_loop, check_counts,
  verify_controller,
}
use v_spells_nand_use_case.Framework.Dib.Spec.{
  Chain, end, link, IsStorage, IsController, Chain-unique, Chain-head, Chain-empty,
}
use v_spells_nand_use_case.Framework.Dib.Decision.{
  Decides, accepts, rejects, Decides-unless, Decides-unless_both, Settles, Settles-failure,
}

same_pointer-Reflects : (p q : Pointer) → Reflects (p ≡ q) (same_pointer p q)
same_pointer-Reflects none none = holds refl
same_pointer-Reflects none (some b) = fails (λ e. cc)
same_pointer-Reflects (some a) none = fails (λ e. cc)
same_pointer-Reflects (some a) (some b) = Reflects-map (==-Reflects a b) (ap some) (λ e. cc)

-- the controller that a storage chip must point to
abbrev Linked : Memory → ℕ → ℕ → Type 0
Linked m c p =
    (((m.controllers c).first_storage ≡ some p) ⊎ ((m.controllers c).last_storage ≡ some p)
      → (m.storages p).controller ≡ some c)
    × ((m.controllers c).first_storage ≢ some p
        → (m.controllers c).last_storage ≢ some p
        → (m.storages p).controller ≡ none)

verify_storage-Decides : (m : Memory) (c p : ℕ) → Decides (IsStorage m c p) (verify_storage m c p)
unfolding verify_storage
verify_storage-Decides m c p =
    let k = m.controllers c in
    let t = m.storages p in
    let linked =
      Reflects-if
        (Reflects-or (same_pointer-Reflects k.first_storage (some p))
          (same_pointer-Reflects k.last_storage (some p)))
        (λ at_end.
          Reflects-map {Q = Linked m c p} (same_pointer-Reflects t.controller (some c))
            (λ e. (λ _. e, λ f l. absurd (elim at_end [ inl e1 ↦ f e1 | inr e2 ↦ l e2 ])))
            (λ (outer, inner). outer at_end))
        (λ between.
          Reflects-map (same_pointer-Reflects t.controller none)
            (λ e. (λ at_end. absurd (between at_end), λ f l. e))
            (λ (outer, inner). inner (λ e1. between (inl e1)) (λ e2. between (inr e2)))) in
    Decides-unless linked (λ s. (s.outer, s.inner))
      λ (outer, inner).
        Decides-unless (==-Reflects t.ref_count 1) (λ s. s.counted)
          λ e. accepts (record { outer = outer; inner = inner; counted = e })

-- what the loop over a controller's chips finds: the chain that is left and its last chip, or none that has room
Walked : Memory → ℕ → (before first : Pointer) (sc_count : ℕ) → Option (ℕ × Pointer) → Type 0
Walked m c before first sc_count none =
    (n : ℕ) (last : Pointer)
    → Chain (λ p. (m.storages p).next_storage) (IsStorage m c) before first n last
    → sc_count + n ≤ max_storage_chips
    → ⊥
Walked m c before first sc_count (some (total, last)) =
    (n : ℕ) × (total ≡ sc_count + n)
    × (total ≤ max_storage_chips)
    × Chain (λ p. (m.storages p).next_storage) (IsStorage m c) before first n last

-- one round, for the result of the chip's verification and of the rounds that follow
storage_round :
    (m : Memory) (c sc_count p : ℕ) (before : Pointer) {code : Code}
    {rest : Outcome (Option (ℕ × Pointer))}
    → Decides (IsStorage m c p) code
    → ((walk : Option (ℕ × Pointer)) × (rest ≡ ok walk)
        × Walked m c (some p) (m.storages p).next_storage (sc_count + 1) walk)
    → (walk : Option (ℕ × Pointer)) × (elim code [ failure ↦ ok none | success ↦ rest ] ≡ ok walk)
      × Walked m c before (some p) sc_count walk
unfolding Walked
storage_round m c sc_count p before (rejects n) later =
    (none, refl, λ k last chain room. let (_, _, s, _) = Chain-head chain in n s)
storage_round m c sc_count p before (accepts s) (none, e, never) = (
  none,
  e,
  λ k last chain room.
      let (j, one, _, after) = Chain-head chain in never j last after (omega arith),
)
storage_round m c sc_count p before (accepts s) (some (total, last), e, (n, count, few, chain)) =
    (some (total, last), e, (suc n, omega arith, few, link s chain))

storage_loop-Walked :
    (m : Memory) (c fuel sc_count : ℕ) (before first : Pointer)
    → sc_count ≤ max_storage_chips
    → sc_count + fuel ≡ max_storage_chips + 1
    → (walk : Option (ℕ × Pointer)) × (storage_loop m c fuel sc_count before first ≡ ok walk)
      × Walked m c before first sc_count walk
unfolding storage_loop Walked
storage_loop-Walked m c fuel sc_count before none few enough =
    (some (sc_count, before), refl, (zero, omega arith, few, end))
storage_loop-Walked m c zero sc_count before (some p) few enough = absurd (omega arith)
storage_loop-Walked m c (suc fuel) sc_count before (some p) few enough =
    elim (Bool-cases (ltb max_storage_chips (sc_count + 1))) [
      | inl full ↦
          rw full
            (none, refl, λ k last chain room. let (j, one, _, _) = Chain-head chain in ground arith)
      | inr room ↦ rw room (
          storage_round m c sc_count p before (verify_storage-Decides m c p) (
            storage_loop-Walked m c fuel (sc_count + 1) (some p) (m.storages p).next_storage
              (ground arith) (omega arith)))
    ]

check_counts-Decides :
    (m : Memory) (c n : ℕ) (last : Pointer)
    → 0 < n
    → n ≤ max_storage_chips
    → Chain
        (λ p. (m.storages p).next_storage)
        (IsStorage m c)
        none
        (m.controllers c).first_storage
        n
        last
    → Decides (IsController m c) (check_counts (m.controllers c) n last)
unfolding check_counts
check_counts-Decides m c n last some_chips few chain =
    let k = m.controllers c in
    Decides-unless (same_pointer-Reflects k.last_storage last)
      (λ s. (Chain-unique s.linked chain).1)
      λ ends.
        Decides-unless_both (==-Reflects k.ref_count k.nstorage) (==-Reflects k.nstorage n)
          (λ s. (s.referenced ∙ sym s.counted, s.counted ∙ (Chain-unique s.linked chain).0))
          λ (same, counted). accepts (record {
            chips = n;
            few = few;
            some_chips = some_chips;
            linked = rw ends chain;
            counted = counted;
            referenced = same ∙ counted;
          })

-- what follows the walk over the chips
settled_walk :
    (m : Memory) (c p : ℕ) (walk : Option (ℕ × Pointer))
    → (m.controllers c).first_storage ≡ some p
    → Walked m c none (some p) 0 walk
    → Settles (IsController m c) (elim walk [
      | none ↦ ok failure
      | some (sc_count, p_last) ↦ ok (check_counts (m.controllers c) sc_count p_last)
    ])
unfolding Walked
settled_walk m c p none first never = Settles-failure λ s.
    never s.chips _
      (subst
        (λ q.
          Chain (λ p. (m.storages p).next_storage) (IsStorage m c) none q s.chips
            (m.controllers c).last_storage)
        first s.linked)
      (omega arith)
settled_walk m c p (some (total, last)) first (n, count, few, chain) =
    let (j, one, _, _) = Chain-head chain in
    let same : n ≡ total = omega arith in
    (
      check_counts (m.controllers c) total last,
      refl,
      check_counts-Decides m c total last (omega arith) few (rw (first, sym same) chain),
    )

-- `verify_controller` returns, and accepts exactly the well-formed controllers.
pub verify_controller-Settles :
    (m : Memory) (c : ℕ) → Settles (IsController m c) (verify_controller m c)
unfolding verify_controller
verify_controller-Settles m c = elim (Option-cases (m.controllers c).first_storage) [
  | inl e ↦
      rw (e, verify_controller)
        (Settles-failure λ s.
          let chain =
            subst
              (λ q.
                Chain (λ p. (m.storages p).next_storage) (IsStorage m c) none q s.chips
                  (m.controllers c).last_storage)
              e s.linked in
          let none_at_all = Chain-empty chain in omega (arith, s.some_chips))
  | inr (p, e) ↦
      let (walk, done, walked) =
        storage_loop-Walked m c (max_storage_chips + 1) 0 none (some p) (omega arith)
          (omega arith) in
      rw (e, verify_controller, done) (settled_walk m c p walk e walked)
]
