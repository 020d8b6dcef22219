-- ===== src/Main.antt =====
-- The program (main/main.c): its options, and what the child process does. The fork, the trace and the messages
-- are left out, and the parent is the emulator (Device).
pub mod Child
pub mod Registration
use v_spells_nand_use_case.Prelude.{
  ℕ, List, [], ◌∷◌, Bool, Bytes, ◌&&◌, not, ltb, ◌==◌, if◌then◌else◌,
}
use v_spells_nand_use_case.Outcome.{Outcome, ok, ◌>>=◌}
use v_spells_nand_use_case.Host.{Host}
use v_spells_nand_use_case.Driver.Alpha
use v_spells_nand_use_case.Driver.Foxtrot
use v_spells_nand_use_case.Driver.Kilo
use v_spells_nand_use_case.Driver.Kilo.Bugs.{KiloBug, register_of, get_driver_of}
use v_spells_nand_use_case.Driver.Interface.{Code, success, failure, NandDriver}
use v_spells_nand_use_case.Framework.Dib.{Pointer, Memory, Placed, same_pointer}
use v_spells_nand_use_case.Tester.Deterministic.{st_deterministic}
use v_spells_nand_use_case.Tester.Dib.{st_dib_init, st_dib_test}
use v_spells_nand_use_case.Tester.Libc.{Libc, Session}
use v_spells_nand_use_case.Tester.Stochastic.{st_stochastic}

-- `strtol(s, &endptr, 10)`
pub record Strtol : Type 0 where
  pub errno : ℕ
  -- `*endptr == '\0'`
  pub at_end : Bool
  pub negative : Bool
  pub magnitude : ℕ

-- the C library's functions on strings, which are lists of characters
pub record Strings : Type 0 where
  -- `!strcmp(a, b)`
  pub same : List ℕ → List ℕ → Bool
  pub strtol : List ℕ → Strtol

-- `--deterministic` and `--stochastic`
abbrev pub deterministic : List ℕ
deterministic =
    45 ∷ 45 ∷ 100 ∷ 101 ∷ 116 ∷ 101 ∷ 114 ∷ 109 ∷ 105 ∷ 110 ∷ 105 ∷ 115 ∷ 116 ∷ 105 ∷ 99 ∷ []

abbrev pub stochastic : List ℕ
stochastic = 45 ∷ 45 ∷ 115 ∷ 116 ∷ 111 ∷ 99 ∷ 104 ∷ 97 ∷ 115 ∷ 116 ∷ 105 ∷ 99 ∷ []

-- `mode`, and with it `num_tests` where that is used
pub data Mode : Type 0 where
  cl_deterministic : Mode
  cl_stochastic : (num_tests : ℕ) → Mode
  cl_error : Mode

abbrev pub stochastic_mode : Strtol → Mode
stochastic_mode n =
    if n.errno == 0 && n.at_end && not n.negative && ltb 0 n.magnitude
    then cl_stochastic n.magnitude
    else cl_error

-- `argv` begins with the program's name.
unfoldable pub mode_of : Strings → List (List ℕ) → Mode
mode_of lib (name ∷ []) = cl_deterministic
mode_of lib (name ∷ option ∷ []) =
    if lib.same option deterministic then cl_deterministic else cl_error
mode_of lib (name ∷ option ∷ count ∷ []) =
    if lib.same option stochastic then stochastic_mode (lib.strtol count) else cl_error
mode_of lib _ = cl_error

-- the two functions of the driver that the program was linked with
pub record LinkedDriver : Type 0 where
  pub init_nand_driver : Memory → Pointer → Outcome (Pointer × Memory)
  pub get_driver : Memory → Outcome NandDriver

-- alpha_0, foxtrot_0 and kilo_0. The first two return the block that they are given.
abbrev pub alpha_0 : Host → LinkedDriver
alpha_0 h = record {
  init_nand_driver = λ m old_dib. ok (old_dib, m);
  get_driver = λ m. ok (Alpha.get_driver h);
}

abbrev pub foxtrot_0 : Host → LinkedDriver
foxtrot_0 h = record {
  init_nand_driver = λ m old_dib. ok (old_dib, m);
  get_driver = λ m. ok (Foxtrot.interpreter h);
}

abbrev pub kilo_0 : Placed → LinkedDriver
kilo_0 at = record {
  init_nand_driver = Kilo.register_nand_device at;
  get_driver = Kilo.get_driver at;
}

-- kilo_1 to kilo_5
abbrev pub kilo_bug : KiloBug → Placed → LinkedDriver
kilo_bug bug at = record {
  init_nand_driver = register_of bug at;
  get_driver = get_driver_of bug at;
}

unfoldable pub init_framework :
    LinkedDriver → Memory → Pointer → Outcome (Pointer × NandDriver × Memory)
init_framework program m old_dib = program.init_nand_driver m old_dib >>= λ (new_dib, m).
    program.get_driver m >>= λ driver. ok (new_dib, driver, m)

-- what the tests start from: the session, and the two arrays of the deterministic test
pub record Start : Type 0 where
  pub session : Session
  pub data_array : Bytes
  pub dest : Bytes

unfoldable pub run_tests : Libc → NandDriver → Mode → Start → Outcome Code
run_tests libc driver (cl_stochastic num_tests) start =
    st_stochastic libc driver num_tests start.session >>= λ (code, _). ok code
run_tests libc driver _ start =
    st_deterministic driver start.data_array start.dest start.session.rig >>= λ (code, _). ok code

-- the check of the block that the driver returned, where it returned another
abbrev pub check_dib : Memory → (dib_old dib_new : Pointer) → Outcome Code
check_dib m dib_old dib_new =
    if same_pointer dib_old dib_new then ok success else st_dib_test m dib_old dib_new

-- `case 0`: the child
unfoldable pub run_child : Libc → LinkedDriver → Mode → Placed → Memory → Start → Outcome Code
unfolding init_framework run_tests
run_child libc program mode at m start =
    let (dib_old, m) = st_dib_init at m in
    init_framework program m dib_old >>= λ (dib_new, driver, m).
    check_dib m dib_old dib_new >>= λ code. elim code [
      | failure ↦ ok failure
      | success ↦ run_tests libc driver mode start
    ]

-- `main` as the child runs it; with options that are not understood it does not come to the fork
unfoldable pub run_main :
    Strings → Libc → LinkedDriver → List (List ℕ) → Placed → Memory → Start → Outcome Code
unfolding run_child mode_of
run_main lib libc program argv at m start = elim (mode_of lib argv) [
  | cl_error ↦ ok failure
  | cl_deterministic ↦ run_child libc program cl_deterministic at m start
  | cl_stochastic num_tests ↦ run_child libc program (cl_stochastic num_tests) at m start
]
