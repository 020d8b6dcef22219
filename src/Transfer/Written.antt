-- ===== src/Transfer/Written.antt =====
-- What a transfer of bytes into whole pages leaves in the storage, in closed form, and its unfolding
-- by the first page.
use v_spells_nand_use_case.Prelude.{
  ℕ, ◌+◌, ◌-◌, ◌*◌, ◌/◌, ◌%◌, ◌≤◌, ◌<◌, ◌≡◌, ◌≢◌, arith, Bytes, Bool, true, ◌&&◌, ltb, leb,
  if◌then◌else◌,
}
use native.Mathlib.Decide.{dec_lt}
use v_spells_nand_use_case.Device.Store.Laws.{storage_size}
use v_spells_nand_use_case.Framework.JumpTable.{chunk}
use v_spells_nand_use_case.Transfer.Program.{filled}
use v_spells_nand_use_case.Transfer.Execute.{paged}

-- how far address `j` lies behind the start of the page of `cursor`, going round the storage
abbrev pub behind : ℕ → ℕ → ℕ
behind cursor j = (j + storage_size - cursor / 256 * 256) % storage_size

-- how many bytes of storage the pages of the transfer have
abbrev pub pages_size : ℕ → ℕ → ℕ
pages_size cursor n = (cursor % 256 + n + 255) / 256 * 256

-- `n` bytes of `buffer`, from index `at`, lie at `cursor`, the rest of their pages is zero, and all
-- else is as in `d`.
unfoldable pub written : Bytes → ℕ → ℕ → ℕ → Bytes → Bytes
written buffer at cursor n d j =
    if ltb j storage_size && ltb (behind cursor j) (pages_size cursor n)
    then (if leb (cursor % 256) (behind cursor j) && ltb (behind cursor j) (cursor % 256 + n)
        then buffer (at + (behind cursor j - cursor % 256))
        else 0)
    else d j

pub chunk_lem :
    (b n : ℕ)
    → b < 256
    → 0 < n
    → (chunk b n ≤ n)
      × (chunk b n ≤ 256 - b)
      × (0 < chunk b n)
      × (chunk b n < n → chunk b n ≡ 256 - b)
chunk_lem b n hb hn = ground arith

-- Beyond the first page both sides read the same byte.
far_eq :
    (buffer : Bytes) (at b n s x p b' y q : ℕ) (t : Bool) (v w : ℕ)
    → s ≤ n
    → s ≤ 256 - b
    → 0 < s
    → (s < n → s ≡ 256 - b)
    → 256 ≤ x
    → y ≡ x - 256
    → q + 256 ≡ p
    → b' ≡ 0
    → t ≡ true
    → v ≡ w
    → (if t && ltb y q
        then (if leb b' y && ltb y (b' + (n - s)) then buffer (at + s + (y - b')) else 0)
        else v)
      ≡ (if t && ltb x p
          then (if leb b x && ltb x (b + n) then buffer (at + (x - b)) else 0)
          else w)
far_eq buffer at b n s x p b' y q t v w fill room some_bytes full hx hy hq hb ht hv = ground arith

module _ (buffer : Bytes) (at cursor n s : ℕ) (d : Bytes) (inside : cursor < storage_size)
    (fits : pages_size cursor n ≤ storage_size) (fill : s ≤ n) (room : s ≤ 256 - cursor % 256)
    (some_bytes : 0 < s) (full : s < n → s ≡ 256 - cursor % 256) where
  abbrev next_cursor : ℕ
  next_cursor = (cursor / 256 * 256 + 256) % storage_size

  behind_next :
      (j : ℕ)
      → j < storage_size
      → 256 ≤ behind cursor j
      → behind next_cursor j ≡ behind cursor j - 256
  behind_next j hj h = omega (arith, inside)

  behind_first :
      (j : ℕ)
      → j < storage_size
      → behind cursor j < 256
      → (j / 256 ≡ cursor / 256)
        × (j % 256 ≡ behind cursor j)
        × (behind next_cursor j ≡ behind cursor j + storage_size - 256)
  behind_first j hj h = omega (arith, inside)

  behind_other : (j : ℕ) → j < storage_size → 256 ≤ behind cursor j → j / 256 ≢ cursor / 256
  behind_other j hj h = omega (arith, inside)

  pub pages_next : pages_size next_cursor (n - s) + 256 ≡ pages_size cursor n
  pages_next = ground (arith, inside, fits, fill, room, some_bytes, full)

  -- The transfer is its first page and then the transfer of the rest.
  pub written_step :
      (j : ℕ)
      → written buffer
          (at + s)
          next_cursor
          (n - s)
          (paged d (filled (λ _. 0) (cursor % 256) buffer at s) cursor)
          j
        ≡ written buffer at cursor n d j
  unfolding written
  written_step j = elim (dec_lt j storage_size) [
    | no out ↦ ground (arith, inside)
    | yes hj ↦ elim (dec_lt (behind cursor j) 256) [
      | yes near ↦
          ground (arith, behind_first j hj near, pages_next, inside, fill, room, some_bytes)
      | no far ↦
          far_eq buffer at (cursor % 256) n s (behind cursor j) (pages_size cursor n)
            (next_cursor % 256) (behind next_cursor j) (pages_size next_cursor (n - s))
            (ltb j storage_size) _ (d j) fill room some_bytes full (omega arith)
            (behind_next j hj (omega arith)) pages_next (omega arith) (ground arith)
            (ground (arith, behind_other j hj (omega arith)))
    ]
  ]
