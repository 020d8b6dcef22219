-- ===== src/Transfer/Fetch.antt =====
-- `jt_read` with the correct driver and the emulator.
use v_spells_nand_use_case.Prelude.{
  ℕ, zero, suc, ◌+◌, ◌-◌, ◌*◌, ◌/◌, ◌%◌, ◌^◌, ◌≤◌, ◌<◌, ◌≡◌, refl, ◌∙◌, sym, arith, Bytes, ◌==◌,
  inl, inr, Bool-cases,
}
use v_spells_nand_use_case.Host.{Host}
use v_spells_nand_use_case.Clock.Laws.{IsHost, Returns, returns, bind, mono}
use v_spells_nand_use_case.Device.Constants.{read_page_duration}
use v_spells_nand_use_case.Device.IoRegs.Laws.{IsDecodable}
use v_spells_nand_use_case.Device.Store.Laws.{storage_size}
use v_spells_nand_use_case.Device.Rig.{read_awaiting_execute, read_providing_data, Rig}
use v_spells_nand_use_case.Driver.Interface.{Code, success}
use v_spells_nand_use_case.Driver.Alpha.{table}
use v_spells_nand_use_case.Framework.JumpTable.{chunk, read_loop, jt_read}
use v_spells_nand_use_case.Transfer.Phase.{IsIdle, reading, setup_lem}
use v_spells_nand_use_case.Transfer.Addresses.{read_addresses}
use v_spells_nand_use_case.Transfer.Execute.{wait-Due}
use v_spells_nand_use_case.Transfer.Written.{chunk_lem}
use v_spells_nand_use_case.Transfer.Read.{
  page_bytes, taken, Reading, read_execute, nand_read-Providing,
}

-- `n` bytes of the storage from `cursor` on, going round
abbrev pub from : Bytes → ℕ → ℕ → ℕ
from d cursor i = d ((cursor + i) % storage_size)

fetched_step :
    (buffer b d : Bytes) (at cursor s n j : ℕ)
    → s ≤ n
    → s ≤ 256 - cursor % 256
    → cursor < storage_size
    → b j ≡ taken buffer at s (λ i. page_bytes d cursor (cursor % 256 + i)) j
    → taken b (at + s) (n - s) (from d ((cursor + s) % storage_size)) j
      ≡ taken buffer at n (from d cursor) j
fetched_step buffer b d at cursor s n j fill room inside e =
    let later : at + s ≤ j
        → ((cursor + s) % storage_size + (j - (at + s))) % storage_size
          ≡ (cursor + (j - at)) % storage_size =
      λ k. omega arith in
    let page : at ≤ j
        → j < at + s
        → cursor / 256 * 256 + (cursor % 256 + (j - at)) ≡ (cursor + (j - at)) % storage_size =
      λ k l. omega arith in
    ground (arith, later, page, e)

module _ {h : Host} (host : IsHost h) (d : Bytes) (bytes : (i : ℕ) → d i < 256)
    (decodable : IsDecodable h) where
  -- the loop has read `n` bytes, and stands ready for the next page or the next transfer
  abbrev Fetched : Bytes → (at cursor n : ℕ) → Code × Bytes × Rig → Type 0
  Fetched buffer at cursor n (code, b, t) =
      (code ≡ success) × ((j : ℕ) → b j ≡ taken buffer at n (from d cursor) j) × IsIdle host d t

  fetch_nothing :
      (buffer : Bytes) (at cursor : ℕ) (r : Rig)
      → r.machine_state ≡ read_providing_data
      → Reading host cursor d r
      → Fetched buffer at cursor 0 (success, buffer, r)
  fetch_nothing buffer at cursor r settled (inl (c, p)) =
      let clash : read_awaiting_execute ≡ read_providing_data = sym p.state ∙ settled in absurd cc
  fetch_nothing buffer at cursor r settled (inr (c, p)) = (
    refl,
    λ j. ground arith,
    record {
      between = inr (inl p.state);
      ready = p.ready;
      bounded = omega (arith, p.at, p.bounded);
      holds = p.holds;
    },
  )

  read_loop-Fetched :
      (fuel byte_addr at cursor n : ℕ) (buffer : Bytes) (r : Rig)
      → n ≤ fuel
      → (0 < n → byte_addr ≡ cursor % 256)
      → (n ≡ 0 → r.machine_state ≡ read_providing_data)
      → at + n < 2 ^ 32
      → cursor < storage_size
      → Reading host cursor d r
      → Returns h (Fetched buffer at cursor n) (read_loop (table h) buffer fuel byte_addr at n r)
  unfolding read_loop
  read_loop-Fetched zero byte_addr at cursor n buffer r fuel_fits eb settled index inside p =
      let e : n ≡ 0 = omega arith in rw e (returns (fetch_nothing buffer at cursor r (settled e) p))
  read_loop-Fetched (suc fuel) byte_addr at cursor n buffer r fuel_fits eb settled index inside p =
      elim (Bool-cases (n == 0)) [
        | inl none_left ↦
            let e : n ≡ 0 = ground arith in
            rw e (returns (fetch_nothing buffer at cursor r (settled e) p))
        | inr more ↦
            let some_left : 0 < n = ground arith in
            let e = eb some_left in
            let s = chunk byte_addr n in
            let c = chunk_lem byte_addr n (omega arith) (ground arith) in
            let wrap : (at + s) % 2 ^ 32 ≡ at + s = omega (arith, c.0) in
            rw more (
              bind (read_execute host cursor d r p) λ r1 due.
                bind (wait-Due host read_page_duration _ r1 (omega arith) due) λ (code, r2) (ec, q).
                  rw (ec, wrap)
                    (bind
                      (nand_read-Providing host s at cursor buffer d (page_bytes d cursor) r2
                        decodable (λ j hj. bytes (cursor / 256 * 256 + j)) (omega (arith, c.1)) q)
                      λ (b, r3) (got, q').
                        mono
                          (read_loop-Fetched fuel 0 (at + s) ((cursor + s) % storage_size) (n - s) b
                            r3 (omega (arith, c.2)) (λ k. omega (arith, c.3 (omega (arith, k))))
                            (λ _. q'.state) (omega (arith, c.0)) (omega arith)
                            (inr (page_bytes d cursor, q')))
                          λ (code', b', t) (done, rest, idle). (
                            done,
                            λ j.
                                rest j
                                ∙ fetched_step buffer b d at cursor s n j c.0 (omega (arith, c.1))
                                    inside (got j),
                            idle,
                          )))
      ]

  -- On an idle device that holds `d`, `jt_read` with the correct driver returns success, if the clock
  -- can be read, and leaves the device idle and still holding `d`, and in the buffer `size` bytes of
  -- `d` from the offset on, going round the end of the storage. The rest of the buffer is unchanged.
  pub jt_read-Fetched :
      (buffer : Bytes) (offset size : ℕ) (r : Rig)
      → 0 < size
      → size < 2 ^ 32
      → IsIdle host d r
      → Returns h
          (Fetched buffer 0 (offset % storage_size) size)
          (jt_read (table h) buffer offset size r)
  unfolding jt_read
  jt_read-Fetched buffer offset size r some_bytes short idle =
      bind (setup_lem host reading d r idle) λ r1 b.
        bind (read_addresses host d offset r1 b) λ r2 p.
          read_loop-Fetched size (offset % 256 % 256) 0 (offset % storage_size) size buffer r2
            (omega arith) (λ _. omega arith) (λ e. absurd (omega arith)) (omega arith) (omega arith)
            (inl ((λ _. 0), p))
