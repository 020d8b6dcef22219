-- ===== src/Transfer/Write.antt =====
-- `jt_write` with the correct driver and the emulator.
use v_spells_nand_use_case.Prelude.{
  ℕ, zero, suc, ◌+◌, ◌-◌, ◌*◌, ◌/◌, ◌%◌, ◌^◌, ◌≤◌, ◌<◌, ◌≡◌, refl, arith, Bytes, ◌==◌, inl, inr,
  Bool-cases,
}
use v_spells_nand_use_case.Host.{Host}
use v_spells_nand_use_case.Clock.Laws.{IsHost, Returns, returns, bind, mono}
use v_spells_nand_use_case.Device.Store.Laws.{storage_size}
use v_spells_nand_use_case.Device.Constants.{write_page_duration}
use v_spells_nand_use_case.Device.Rig.{Rig}
use v_spells_nand_use_case.Driver.Interface.{Code, success}
use v_spells_nand_use_case.Driver.Alpha.{table}
use v_spells_nand_use_case.Framework.JumpTable.{chunk, write_loop, jt_write}
use v_spells_nand_use_case.Transfer.Phase.{Phase-adjust, IsIdle, programming, setup_lem}
use v_spells_nand_use_case.Transfer.Addresses.{program_addresses}
use v_spells_nand_use_case.Transfer.Program.{filled, Accepting, nand_program-Accepting}
use v_spells_nand_use_case.Transfer.Execute.{paged, program_execute, wait-Due}
use v_spells_nand_use_case.Transfer.Written.{
  pages_size, written, chunk_lem, written_step, pages_next,
}

page_of :
    (cursor s : ℕ) (d c : Bytes) (j : ℕ)
    → paged d c (cursor / 256 * 256 + (cursor % 256 + s) % 256) j ≡ paged d c cursor j
page_of cursor s d c j =
    let e : (cursor / 256 * 256 + (cursor % 256 + s) % 256) / 256 ≡ cursor / 256 = omega arith in
    rw e

written_nothing :
    (buffer : Bytes) (at cursor : ℕ) (d : Bytes) (j : ℕ)
    → cursor % 256 ≡ 0
    → d j ≡ written buffer at cursor 0 d j
unfolding written
written_nothing buffer at cursor d j e = ground arith

module _ {h : Host} (host : IsHost h) (buffer : Bytes) (bytes : (i : ℕ) → buffer i < 256) where
  -- the loop has written `n` bytes and stands ready for the next page
  abbrev Wrote : (at cursor n : ℕ) → Bytes → Code × Rig → Type 0
  Wrote at cursor n d (code, t) =
      (code ≡ success)
      × (cursor' : ℕ) × Accepting host cursor' (written buffer at cursor n d) (λ _. 0) t

  write_nothing :
      (at cursor : ℕ) (d : Bytes) (r : Rig)
      → cursor % 256 ≡ 0
      → Accepting host cursor d (λ _. 0) r
      → Wrote at cursor 0 d (success, r)
  write_nothing at cursor d r e p = (
    refl,
    cursor,
    Phase-adjust host p refl (λ j. written_nothing buffer at cursor d j e) (λ j hj. refl),
  )

  write_loop-Wrote :
      (fuel byte_addr at cursor n : ℕ) (d : Bytes) (r : Rig)
      → n ≤ fuel
      → byte_addr ≡ cursor % 256
      → (n ≡ 0 → cursor % 256 ≡ 0)
      → pages_size cursor n ≤ storage_size
      → at + n < 2 ^ 32
      → Accepting host cursor d (λ _. 0) r
      → Returns h (Wrote at cursor n d) (write_loop (table h) buffer fuel byte_addr at n r)
  unfolding write_loop
  write_loop-Wrote zero byte_addr at cursor n d r fuel_fits eb aligned fits index p =
      let e : n ≡ 0 = omega arith in rw e (returns (write_nothing at cursor d r (aligned e) p))
  write_loop-Wrote (suc fuel) byte_addr at cursor n d r fuel_fits eb aligned fits index p =
      elim (Bool-cases (n == 0)) [
        | inl none_left ↦
            let e : n ≡ 0 = ground arith in
            rw e (returns (write_nothing at cursor d r (aligned e) p))
        | inr more ↦
            let s = chunk byte_addr n in
            let c = chunk_lem byte_addr n (omega arith) (ground arith) in
            let cursor' = (cursor / 256 * 256 + 256) % storage_size in
            let p1 =
              nand_program-Accepting host buffer s at cursor d (λ _. 0) r (omega (arith, c.1)) bytes
                p in
            let full : s < n → s ≡ 256 - cursor % 256 = λ l. omega (arith, c.3 l) in
            let room : s ≤ 256 - cursor % 256 = omega (arith, c.1) in
            let wrap : (at + s) % 2 ^ 32 ≡ at + s = omega (arith, c.0) in
            let c' = filled (λ _. 0) (cursor % 256) buffer at s in
            let d' = paged d c' cursor in
            let first = written_step buffer at cursor n s d p.bounded fits c.0 room c.2 full in
            let shrinks = pages_next buffer at cursor n s d p.bounded fits c.0 room c.2 full in
            rw more (
              bind p1 λ r1 q1. bind (program_execute host _ d _ r1 q1) λ r2 due.
                bind (wait-Due host write_page_duration _ r2 (omega arith) due)
                  λ (code, r3) (ec, q3).
                    rw (ec, wrap)
                      (mono
                        (write_loop-Wrote fuel 0 (at + s) cursor' (n - s) d' r3 (omega (arith, c.2))
                          (omega arith) (λ _. omega arith) (ground (arith, shrinks))
                          (omega (arith, c.0))
                          (Phase-adjust host q3 (omega arith) (page_of cursor s d c')
                            (λ j hj. refl)))
                        λ (code', t) (done, cursor'', q).
                          (done, cursor'', Phase-adjust host q refl first (λ j hj. refl))))
      ]

  Wrote-IsIdle :
      (at cursor n : ℕ) (d : Bytes) (o : Code × Rig)
      → Wrote at cursor n d o
      → (o.0 ≡ success) × IsIdle host (written buffer at cursor n d) o.1
  Wrote-IsIdle at cursor n d (code, t) (done, cursor', p) = (
    done,
    record {
      between = inr (inr (inl p.state));
      ready = p.ready;
      bounded = omega (arith, p.at, p.bounded);
      holds = p.holds;
    },
  )

  -- On an idle device `jt_write` with the correct driver returns success, if the clock can be read, and
  -- leaves the device idle and in the storage exactly the pages of the transfer: its bytes, zeroes
  -- around them in the first and the last page, and nothing else changed. The transfer has at least one
  -- byte, and its pages fit the storage.
  pub jt_write-written :
      (offset size : ℕ) (d : Bytes) (r : Rig)
      → 0 < size
      → pages_size offset size ≤ storage_size
      → IsIdle host d r
      → Returns h
          (λ (code, t).
            (code ≡ success) × IsIdle host (written buffer 0 (offset % storage_size) size d) t)
          (jt_write (table h) buffer offset size r)
  unfolding jt_write
  jt_write-written offset size d r some_bytes fits idle =
      bind (setup_lem host programming d r idle) λ r1 b.
        bind (program_addresses host d offset r1 b) λ r2 p.
          mono
            (write_loop-Wrote size (offset % 256 % 256) 0 (offset % storage_size) size d r2
              (omega arith) (omega arith) (λ e. absurd (omega arith)) (omega arith) (omega arith) p)
            (Wrote-IsIdle 0 (offset % storage_size) size d)
