-- ===== src/Tester/Data.antt =====
-- The tester's buffers (tester/st_data.c). The indices are below the length, so none wraps.
pub mod Laws
use v_spells_nand_use_case.Prelude.{
  ℕ, zero, suc, ◌+◌, ◌-◌, ◌%◌, Bytes, Bool, update, leb, ◌&&◌, ◌==◌, for_range, if◌then◌else◌,
}

-- the characters 'a' and 'z', and '`', the one before 'a'
abbrev pub char_a : ℕ
char_a = 97

abbrev pub char_z : ℕ
char_z = 122

abbrev pub char_backquote : ℕ
char_backquote = 96

abbrev pub is_printable : ℕ → Bool
is_printable i = leb char_a i && leb i char_z

abbrev pub to_printable : ℕ → ℕ
to_printable i = char_a + i % (char_z - char_backquote)

unfoldable pub data_init : Bytes → ℕ → Bytes
unfolding update
data_init buffer length = for_range length 0 (λ i b. update b i (to_printable i)) buffer

-- `for (i = 0; i < length; i++)` with its `break`, by the rounds that are left
unfoldable pub compare_loop : Bytes → Bytes → ℕ → ℕ → ℕ
compare_loop b1 b2 zero i = i
compare_loop b1 b2 (suc left) i =
    let rest = compare_loop b1 b2 left (i + 1) in if b1 i == b2 i then rest else i

unfoldable pub data_compare : Bytes → Bytes → ℕ → ℕ
unfolding compare_loop
data_compare b1 b2 length = compare_loop b1 b2 length 0

unfoldable pub zeroes_loop : Bytes → ℕ → ℕ → ℕ
zeroes_loop buffer zero i = i
zeroes_loop buffer (suc left) i =
    let rest = zeroes_loop buffer left (i + 1) in if buffer i == 0 then rest else i

unfoldable pub data_confirm_zeroes : Bytes → ℕ → ℕ
unfolding zeroes_loop
data_confirm_zeroes buffer length = zeroes_loop buffer length 0
