-- ===== src/UnitTests/IoRegs/Passes.antt =====
-- The CPU register update passes its unit test, but for displacements that look like another load.
use v_spells_nand_use_case.Prelude.{
  ℕ, ◌/◌, ◌%◌, ◌^◌, ◌<◌, ◌≡◌, refl, arith, Bool, true, false, ◌&&◌, ◌||◌, List, [], ◌∷◌, ◌==◌,
  if◌then◌else◌, mask_byte_0, some, none, inl, inr, Bool-cases,
}
use v_spells_nand_use_case.Outcome.{ok, stop, undecoded}
use v_spells_nand_use_case.Host.{ax}
use v_spells_nand_use_case.Device.IoRegs.{byte}
use v_spells_nand_use_case.Device.IoRegs.Laws.{destination, update_decodes, write_reg}
use v_spells_nand_use_case.UnitTests.IoRegs.{
  Trial, value_correct, pattern_text, try_pattern, tracee,
}

-- The upper three bytes of a displacement read as `movzbl`.
abbrev pub misread : ℕ → Bool
misread displacement =
    displacement / 2 ^ 8 % 256 == 0x0f
    && displacement / 2 ^ 16 % 256 == 0xb6
    && (displacement / 2 ^ 24 == 0x00
        || displacement / 2 ^ 24 == 0x09
        || displacement / 2 ^ 24 == 0x12)

text_bytes :
    (displacement : ℕ)
    → displacement < 2 ^ 32
    → (byte (pattern_text displacement) 1 ≡ 0x48)
      × (byte (pattern_text displacement) 2 ≡ 0x8b)
      × (byte (pattern_text displacement) 3 ≡ 0x05)
      × (byte (pattern_text displacement) 5 ≡ displacement / 2 ^ 8 % 256)
      × (byte (pattern_text displacement) 6 ≡ displacement / 2 ^ 16 % 256)
      × (byte (pattern_text displacement) 7 ≡ displacement / 2 ^ 24)
text_bytes displacement fits =
    let text = pattern_text displacement in
    (
      omega (arith, mask_byte_0 (text / 2 ^ 8)),
      omega (arith, mask_byte_0 (text / 2 ^ 16)),
      omega (arith, mask_byte_0 (text / 2 ^ 24)),
      omega (arith, mask_byte_0 (text / 2 ^ 40)),
      omega (arith, mask_byte_0 (text / 2 ^ 48)),
      omega (arith, mask_byte_0 (text / 2 ^ 56)),
    )

destination_lem :
    (displacement : ℕ)
    → displacement < 2 ^ 32
    → destination (pattern_text displacement) ≡ (if misread displacement then none else some ax)
destination_lem displacement fits =
    rw
      (
        (text_bytes displacement fits).0,
        (text_bytes displacement fits).1,
        (text_bytes displacement fits).2,
        (text_bytes displacement fits).3,
        (text_bytes displacement fits).4,
        (text_bytes displacement fits).5,
      )
      (ground arith)

try_pattern_lem :
    (text displacement : ℕ) (s : Trial)
    → displacement < 2 ^ 32
    → s.is_read ≡ false
    → try_pattern text displacement s ≡ (
        if misread displacement
        then stop undecoded
        else ok (
          value_correct,
          record {
            is_read = false;
            ioregisters = value_correct;
            regs = write_reg ax value_correct s.regs;
          },
        ))
unfolding try_pattern
try_pattern_lem text displacement s fits writes =
    rw (writes, update_decodes, destination_lem displacement fits)
      (elim (Bool-cases (misread displacement)) [ inl bad ↦ rw bad refl | inr good ↦ rw good refl ])

abbrev pub any_misread : List ℕ → Bool
any_misread [] = false
any_misread (displacement ∷ ds) = misread displacement || any_misread ds

abbrev pub AllInRange : List ℕ → Type 0
AllInRange [] = Unit {0}
AllInRange (displacement ∷ ds) = (displacement < 2 ^ 32) × AllInRange ds

abbrev pub all_pass : List ℕ → List Bool
all_pass [] = []
all_pass (displacement ∷ ds) = true ∷ all_pass ds

abbrev pub ended : List ℕ → Trial → Trial
ended [] s = s
ended (displacement ∷ ds) s = record {
  is_read = false;
  ioregisters = value_correct;
  regs = write_reg ax value_correct s.regs;
}

ended_twice :
    (ds : List ℕ) (displacement : ℕ) (s : Trial)
    → ended ds (ended (displacement ∷ ds) s) ≡ ended (displacement ∷ ds) s
ended_twice [] displacement s = refl
ended_twice (d ∷ ds) displacement s = refl

-- Every load of the test gives the value that the parent put in its place, and the parent then awaits a store,
-- for all displacements of 32 bits but those whose upper three bytes read as a `movzbl`: one of these stops
-- the parent.
pub tracee-passes :
    (text : ℕ) (ds : List ℕ) (s : Trial)
    → AllInRange ds
    → s.is_read ≡ false
    → tracee text ds s ≡ (if any_misread ds then stop undecoded else ok (all_pass ds, ended ds s))
unfolding tracee
tracee-passes text [] s fits writes = refl
tracee-passes text (displacement ∷ ds) s (fit, fits) writes =
    rw (try_pattern_lem text displacement s fit writes) (elim (Bool-cases (misread displacement)) [
      | inl bad ↦ rw bad refl
      | inr good ↦
          let rest = tracee-passes text ds (ended (displacement ∷ ds) s) fits refl in
          rw (good, rest, ended_twice ds displacement s)
            (elim (Bool-cases (any_misread ds)) [ inl bad ↦ rw bad refl | inr good ↦ rw good refl ])
    ])
