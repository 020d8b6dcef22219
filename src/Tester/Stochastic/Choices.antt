-- ===== src/Tester/Stochastic/Choices.antt =====
-- The random sizes and starts of the stochastic test (tester/st_stochastic.c).
use v_spells_nand_use_case.Prelude.{ℕ, ◌+◌, ◌-◌, ◌%◌, ◌≤◌, ◌<◌, ◌≡◌, ◌⊎◌, inl, inr, arith, refl}
use native.Mathlib.Decide.{dec_lt}
use v_spells_nand_use_case.Outcome.{Outcome, ok, stop, assertion, ◌>>=◌}
use v_spells_nand_use_case.Tester.Libc.{Libc, Session, drawn}
use v_spells_nand_use_case.Tester.Stochastic.{arena_size, arena_start, random_size, random_start}

-- the size that the random number after `calls` others gives an operation
abbrev pub size_of : Libc → ℕ → ℕ
size_of libc calls = 1 + libc.random calls % arena_size

-- The two random numbers after `calls` others give a size and a start that pass the assertions.
abbrev pub IsDrawable : Libc → ℕ → Type 0
IsDrawable libc calls =
    (1 < size_of libc calls)
    × (libc.random (calls + 1) % (arena_size - size_of libc calls + 1) + size_of libc calls
        < arena_size)

-- a range of the arena that is not empty
abbrev pub IsInArena : ℕ → ℕ → Type 0
IsInArena start size =
    (0 < size) × (arena_start ≤ start) × (start + size ≤ arena_start + arena_size)

abbrev pub start_of : Libc → ℕ → ℕ
start_of libc calls = libc.random (calls + 1) % (arena_size - size_of libc calls + 1) + arena_start

random_size-large :
    (libc : Libc) (s : Session)
    → 1 < size_of libc s.randoms
    → random_size libc s ≡ ok (size_of libc s.randoms, drawn s)
unfolding random_size
random_size-large libc s low = ground arith

pub random_size-drawn :
    (libc : Libc) (s : Session)
    → IsDrawable libc s.randoms
    → random_size libc s ≡ ok (size_of libc s.randoms, drawn s)
random_size-drawn libc s (low, high) = random_size-large libc s low

pub random_start-drawn :
    (libc : Libc) (s : Session)
    → IsDrawable libc s.randoms
    → random_start libc (size_of libc s.randoms) (drawn s)
      ≡ ok (start_of libc s.randoms, drawn (drawn s))
unfolding random_start
random_start-drawn libc s (low, high) = ground arith

pub IsDrawable-IsInArena :
    (libc : Libc) (calls : ℕ)
    → IsDrawable libc calls
    → IsInArena (start_of libc calls) (size_of libc calls)
IsDrawable-IsInArena libc calls (low, high) = (omega arith, omega arith, omega arith)

abbrev pub random_range : Libc → Session → Outcome (ℕ × ℕ × Session)
random_range libc s = random_size libc s >>= λ (size, s).
    random_start libc size s >>= λ (start, s). ok (start, size, s)

too_small-assertion :
    (libc : Libc) (s : Session) → size_of libc s.randoms ≡ 1 → random_size libc s ≡ stop assertion
unfolding random_size
too_small-assertion libc s e = ground arith

too_late-assertion :
    (libc : Libc) (s : Session)
    → libc.random (s.randoms + 1) % (arena_size - size_of libc s.randoms + 1)
        + size_of libc s.randoms
      ≡ arena_size
    → random_start libc (size_of libc s.randoms) (drawn s) ≡ stop assertion
unfolding random_start
too_late-assertion libc s e = ground arith

-- The random numbers of an operation stop the test at an assertion exactly when they give a size of one byte, or a
-- range that ends where the arena does: either they do neither, and the range is theirs, inside the arena, of more
-- than one byte and less than the whole arena; or they do one of the two, and an assertion fails.
pub random_range-arena :
    (libc : Libc) (s : Session)
    → ((1 < size_of libc s.randoms)
        × (start_of libc s.randoms + size_of libc s.randoms < arena_start + arena_size)
        × (random_range libc s
            ≡ ok (start_of libc s.randoms, size_of libc s.randoms, drawn (drawn s)))
        × IsInArena (start_of libc s.randoms) (size_of libc s.randoms)
        × (size_of libc s.randoms < arena_size))
      ⊎ (((size_of libc s.randoms ≡ 1)
            ⊎ (start_of libc s.randoms + size_of libc s.randoms ≡ arena_start + arena_size))
          × (random_range libc s ≡ stop assertion))
random_range-arena libc s = elim (dec_lt 1 (size_of libc s.randoms)) [
  | no small ↦
      let e : size_of libc s.randoms ≡ 1 = omega arith in
      inr (inl e, rw (too_small-assertion libc s e) refl)
  | yes low ↦
      elim (dec_lt (start_of libc s.randoms + size_of libc s.randoms) (arena_start + arena_size)) [
        | yes high ↦
            let drawable : IsDrawable libc s.randoms = (low, omega arith) in
            inl (
              low,
              high,
              rw (random_size-drawn libc s drawable, random_start-drawn libc s drawable) refl,
              IsDrawable-IsInArena libc s.randoms drawable,
              omega arith,
            )
        | no late ↦
            let drawn_size : random_size libc s ≡ ok (size_of libc s.randoms, drawn s) =
              random_size-large libc s low in
            inr (inr (omega arith), rw (drawn_size, too_late-assertion libc s (omega arith)) refl)
      ]
]
