-- ===== src/Tester/Stochastic.antt =====
-- The stochastic system test (tester/st_stochastic.c). Output, the time statistics and the seed are left
-- out: `random` gives the numbers that follow the seed.
pub mod Choices
pub mod Compare
pub mod Operations
pub mod Passes
use v_spells_nand_use_case.Prelude.{
  ℕ, zero, suc, ◌+◌, ◌-◌, ◌*◌, ◌/◌, ◌%◌, none, some, Bool, Bytes, ◌&&◌, ltb, leb, ◌==◌,
  if◌then◌else◌,
}
use v_spells_nand_use_case.Outcome.{Outcome, ok, stop, assertion, ◌>>=◌}
use v_spells_nand_use_case.Device.Constants.{num_blocks, num_pages, num_bytes}
use v_spells_nand_use_case.Driver.Interface.{Code, success, failure, NandDriver}
use v_spells_nand_use_case.Framework.{write_nand, read_nand, erase_nand}
use v_spells_nand_use_case.Tester.Data.{data_init}
use v_spells_nand_use_case.Tester.Libc.{Libc, Session, drawn, allocated}
use v_spells_nand_use_case.Tester.Mirror.{write_mirror, erase_mirror, read_mirror}

abbrev pub block_size : ℕ
block_size = num_bytes * num_pages

abbrev pub device_size : ℕ
device_size = block_size * num_blocks

abbrev pub arena_size : ℕ
arena_size = 4 * block_size

abbrev pub arena_start : ℕ
arena_start = device_size - arena_size / 2

abbrev pub num_ops : ℕ
num_ops = 8

abbrev pub odds_erase : ℕ
odds_erase = 1

abbrev pub odds_write : ℕ
odds_write = odds_erase * 2

abbrev pub odds_read : ℕ
odds_read = odds_write * 2

abbrev pub modulus : ℕ
modulus = odds_erase + odds_write + odds_read

abbrev pub is_erase : ℕ → Bool
is_erase c = leb 0 c && ltb c odds_erase

abbrev pub is_write : ℕ → Bool
is_write c = leb odds_erase c && ltb c (odds_erase + odds_write)

unfoldable pub random_size : Libc → Session → Outcome (ℕ × Session)
random_size libc s =
    let size = 1 + libc.random s.randoms % arena_size in
    if ltb 1 size && leb size arena_size then ok (size, drawn s) else stop assertion

unfoldable pub random_start : Libc → ℕ → Session → Outcome (ℕ × Session)
random_start libc size s =
    let start = libc.random s.randoms % (arena_size - size + 1) in
    if ltb (start + size) arena_size then ok (start + arena_start, drawn s) else stop assertion

unfoldable pub do_erase : NandDriver → ℕ → ℕ → Session → Outcome (Code × Session)
do_erase driver start size s =
    let mirror = erase_mirror start size s.mirror in
    erase_nand driver start size s.rig >>= λ (code, r).
    ok (code, record s { mirror = mirror; rig = r })

unfoldable pub do_write : Libc → NandDriver → ℕ → ℕ → Session → Outcome (Code × Session)
do_write libc driver start size s = elim (libc.malloc s.mallocs size) [
  | none ↦ ok (failure, allocated s)
  | some buf ↦
      let buf = data_init buf size in
      let mirror = write_mirror buf start size s.mirror in
      write_nand driver buf start size s.rig >>= λ (code, r).
      ok (code, record s { mallocs = s.mallocs + 1; mirror = mirror; rig = r })
]

-- `for (i = 0; i < size; i++)`, by the rounds that are left
unfoldable pub match_loop : Bytes → Bytes → ℕ → ℕ → Code
match_loop from_device from_mirror zero i = success
match_loop from_device from_mirror (suc left) i =
    let rest = match_loop from_device from_mirror left (i + 1) in
    if from_device i == from_mirror i then rest else failure

-- the result for what `read_nand` returned
unfoldable pub verdict : Code → Bytes → Bytes → ℕ → Code
unfolding match_loop
verdict failure from_device from_mirror size = failure
verdict success from_device from_mirror size = match_loop from_device from_mirror size 0

unfoldable pub do_read_and_comparison :
    Libc → NandDriver → ℕ → ℕ → Session → Outcome (Code × Session)
unfolding verdict
do_read_and_comparison libc driver start size s = elim (libc.malloc s.mallocs size) [
  | none ↦ ok (failure, allocated s)
  | some from_mirror ↦ elim (libc.malloc (s.mallocs + 1) size) [
    | none ↦ ok (failure, record s { mallocs = s.mallocs + 2 })
    | some from_device ↦
        let from_mirror = read_mirror s.mirror from_mirror start size in
        read_nand driver from_device start size s.rig >>= λ (code, from_device, r).
        ok
          (verdict code from_device from_mirror size, record s { mallocs = s.mallocs + 2; rig = r })
  ]
]

-- one round of the loop over the operations
unfoldable pub do_op : Libc → NandDriver → Session → Outcome (Code × Session)
unfolding random_size random_start do_erase do_write do_read_and_comparison
do_op libc driver s = random_size libc s >>= λ (rwe_size, s).
    random_start libc rwe_size s >>= λ (rwe_start, s).
    let choice = libc.random s.randoms % modulus in
    let s = drawn s in
    if is_erase choice
    then do_erase driver rwe_start rwe_size s
    else (if is_write choice
        then do_write libc driver rwe_start rwe_size s
        else do_read_and_comparison libc driver rwe_start rwe_size s)

-- `for (o = 0; o < NUM_OPS; o++)`, by the rounds that are left
unfoldable pub ops_loop : Libc → NandDriver → ℕ → Session → Outcome (Code × Session)
unfolding do_op
ops_loop libc driver zero s = ok (success, s)
ops_loop libc driver (suc left) s = do_op libc driver s >>= λ (code, s). elim code [
  | failure ↦ ok (failure, s)
  | success ↦ ops_loop libc driver left s
]

unfoldable pub do_test : Libc → NandDriver → ℕ → ℕ → Session → Outcome (Code × Session)
unfolding ops_loop
do_test libc driver start size s = do_erase driver start size s >>= λ (code, s). elim code [
  | failure ↦ ok (failure, s)
  | success ↦ ops_loop libc driver num_ops s >>= λ (code, s). elim code [
    | failure ↦ ok (failure, s)
    | success ↦ do_read_and_comparison libc driver start size s
  ]
]

-- `for (test = 1; test <= num_tests; test++)`, by the rounds that are left
unfoldable pub tests_loop : Libc → NandDriver → ℕ → Code → Session → Outcome (Code × Session)
unfolding do_test
tests_loop libc driver zero ret_val s = ok (ret_val, s)
tests_loop libc driver (suc left) ret_val s =
    do_test libc driver arena_start arena_size s >>= λ (code, s).
    tests_loop libc driver left (elim code [ failure ↦ failure | success ↦ ret_val ]) s

unfoldable pub st_stochastic : Libc → NandDriver → ℕ → Session → Outcome (Code × Session)
unfolding tests_loop
st_stochastic libc driver num_tests s = tests_loop libc driver num_tests success s
