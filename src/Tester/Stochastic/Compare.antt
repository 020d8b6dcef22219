-- ===== src/Tester/Stochastic/Compare.antt =====
-- What the stochastic test's comparison finds (tester/st_stochastic.c).
use v_spells_nand_use_case.Prelude.{
  ℕ, zero, suc, ◌+◌, ◌%◌, ◌^◌, ◌≤◌, ◌<◌, ◌≡◌, ◌∙◌, sym, refl, arith, inl, inr, Bytes, ◌==◌,
  Bool-cases, Option-cases,
}
use v_spells_nand_use_case.Outcome.{Outcome, ok}
use v_spells_nand_use_case.Outcome.Laws.{>>=-ok}
use v_spells_nand_use_case.Driver.Interface.{Code, success, failure, NandDriver}
use v_spells_nand_use_case.Device.Store.Laws.{storage_size}
use v_spells_nand_use_case.Framework.{read_nand}
use v_spells_nand_use_case.Tester.Libc.{Libc, Session}
use v_spells_nand_use_case.Tester.Mirror.{read_mirror}
use v_spells_nand_use_case.Tester.Mirror.Reads.{read_mirror-at}
use v_spells_nand_use_case.Tester.Stochastic.{match_loop, verdict, do_read_and_comparison}

-- equal bytes from index `i` on make the comparison succeed
pub match_loop-success :
    (a b : Bytes) (left i : ℕ)
    → ((j : ℕ) → i ≤ j → j < i + left → a j ≡ b j)
    → match_loop a b left i ≡ success
unfolding match_loop
match_loop-success a b zero i same = refl
match_loop-success a b (suc left) i same =
    let here : a i ≡ b i = same i (omega arith) (omega arith) in
    let rest : match_loop a b left (i + 1) ≡ success =
      match_loop-success a b left (i + 1) (λ j low high. same j (omega arith) (omega arith)) in
    ground arith

-- and a comparison that succeeds has seen equal bytes
pub match_loop-equal :
    (a b : Bytes) (left i : ℕ)
    → match_loop a b left i ≡ success
    → (j : ℕ) → i ≤ j
    → j < i + left
    → a j ≡ b j
unfolding match_loop
match_loop-equal a b zero i e j low high = absurd (omega arith)
match_loop-equal a b (suc left) i e j low high = elim (Bool-cases (a i == b i)) [
  | inl same ↦
      let rest : match_loop a b left (i + 1) ≡ success = rw same at e in
      ground (arith, match_loop-equal a b left (i + 1) rest j)
  | inr other ↦ let never : failure ≡ success = rw other at e in absurd cc
]

verdict-success :
    (code : Code) (from_device from_mirror : Bytes) (size : ℕ)
    → verdict code from_device from_mirror size ≡ success
    → (code ≡ success) × (match_loop from_device from_mirror size 0 ≡ success)
unfolding verdict
verdict-success failure from_device from_mirror size e = cc
verdict-success success from_device from_mirror size e = (refl, e)

-- two reads of a mirror, into different blocks, agree
pub verdict-read_mirror :
    (code : Code) (b from_device from_mirror m : Bytes) (start size : ℕ)
    → size < 2 ^ 32
    → code ≡ success
    → ((j : ℕ) → b j ≡ read_mirror m from_device start size j)
    → verdict code b (read_mirror m from_mirror start size) size ≡ success
unfolding verdict
verdict-read_mirror failure b from_device from_mirror m start size short done same = cc
verdict-read_mirror success b from_device from_mirror m start size short done same =
    match_loop-success b (read_mirror m from_mirror start size) size 0 λ j low high.
      same j
      ∙ read_mirror-at m from_device start size j short (omega arith)
      ∙ sym (read_mirror-at m from_mirror start size j short (omega arith))

-- Whatever the driver: a comparison that returns success has read from the device, with success, the bytes
-- that the mirror holds for the range, for a size below 2 ^ 32.
pub do_read_and_comparison-matches :
    (libc : Libc) (driver : NandDriver) (start size : ℕ) (s t : Session)
    → size < 2 ^ 32
    → do_read_and_comparison libc driver start size s ≡ ok (success, t)
    → (buffer b : Bytes) × (read_nand driver buffer start size s.rig ≡ ok (success, b, t.rig))
      × ((i : ℕ) → i < size → b i ≡ s.mirror ((start + i) % storage_size))
unfolding do_read_and_comparison
do_read_and_comparison-matches libc driver start size s t short e =
    elim (Option-cases (libc.malloc s.mallocs size)) [
      | inl missing ↦
          let f : ◌≡◌ {A = Outcome (Code × Session)}
              (ok (failure, record s { mallocs = s.mallocs + 1 })) (ok (success, t)) =
            rw (missing, do_read_and_comparison) at e in
          absurd cc
      | inr (from_mirror, got) ↦ elim (Option-cases (libc.malloc (s.mallocs + 1) size)) [
        | inl missing ↦
            let f : ◌≡◌ {A = Outcome (Code × Session)}
                (ok (failure, record s { mallocs = s.mallocs + 2 })) (ok (success, t)) =
              rw (got, missing, do_read_and_comparison) at e in
            absurd cc
        | inr (from_device, got') ↦
            let f = rw (got, got', do_read_and_comparison) at e in
            let ((code, b, r), read, after) =
              >>=-ok (read_nand driver from_device start size s.rig) _ _ f in
            let (done, same) =
              verdict-success code b (read_mirror s.mirror from_mirror start size) size cc in
            (
              from_device,
              b,
              cc,
              λ i hi.
                  match_loop-equal b (read_mirror s.mirror from_mirror start size) size 0 same i
                    (omega arith) (omega arith)
                  ∙ read_mirror-at s.mirror from_mirror start size i short hi,
            )
      ]
    ]
