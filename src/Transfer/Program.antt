-- ===== src/Transfer/Program.antt =====
-- Programming: the bytes of a page go to the cache, and the execute command writes the page.
use v_spells_nand_use_case.Prelude.{
  ℕ, zero, suc, ◌+◌, ◌-◌, ◌*◌, ◌/◌, ◌%◌, ◌^◌, ◌≤◌, ◌<◌, ◌≡◌, refl, ◌∙◌, arith, Bytes, true, ◌==◌,
  ◌&&◌, ltb, leb, if◌then◌else◌,
}
use v_spells_nand_use_case.Host.{Host}
use v_spells_nand_use_case.Clock.Laws.{IsHost, Returns, returns, bind, mono, time-resume}
use v_spells_nand_use_case.Device.Constants.{c_dummy, ioreg_data}
use v_spells_nand_use_case.Device.Store.{store_set_cache_byte}
use v_spells_nand_use_case.Device.Store.Laws.{
  cursor-increment_stay, cache-set_byte, increment_keeps, set_cache_byte_keeps,
}
use v_spells_nand_use_case.Device.Rig.{program_accepting_data, Rig}
use v_spells_nand_use_case.Device.Parser.{dispatch, accept_byte}
use v_spells_nand_use_case.Device.Parser.Messages.{set_byte, command_lem, data_lem, set_data}
use v_spells_nand_use_case.Device.Parser.Ready.{handle_at, accept_byte-Returns}
use v_spells_nand_use_case.Driver.Registers.{nand_set_register}
use v_spells_nand_use_case.Driver.Alpha.{nand_program}
use v_spells_nand_use_case.Transfer.Phase.{Phase, Phase-adjust, stored}

-- the cache with `n` bytes of `buffer`, from its index `at` on, at index `b` on
abbrev pub filled : Bytes → ℕ → Bytes → ℕ → ℕ → Bytes
filled c b buffer at n j = if leb b j && ltb j (b + n) then buffer (at + (j - b)) else c j

filled-suc :
    (c buffer : Bytes) (at b b' n j : ℕ)
    → b + suc n ≤ 256
    → b' ≡ (b + 1) % 256
    → filled (λ i. if i == b then buffer at else c i) b' buffer (at + 1) n j
      ≡ filled c b buffer at (suc n) j
filled-suc c buffer at b b' n j room e = ground arith

module _ {h : Host} (host : IsHost h) where
  abbrev pub Accepting : ℕ → Bytes → Bytes → Rig → Type 0
  Accepting cursor d c r = Phase host program_accepting_data c_dummy cursor d c r

  -- One byte goes to the cursor's place in the cache, and the cursor moves on within the page.
  pub store_byte :
      (v cursor : ℕ) (d c : Bytes) (r : Rig)
      → v < 256
      → Accepting cursor d c r
      → Returns h
          (Accepting
            (cursor / 256 * 256 + (cursor + 1) % 256)
            d
            (λ j. if j == cursor % 256 then v else c j))
          (nand_set_register h ioreg_data v r)
  unfolding nand_set_register dispatch accept_byte
  store_byte v cursor d c r small p =
      let word = set_byte r.ioregisters 0 (v % 256) in
      let same = set_data r.ioregisters (v % 256) (omega arith) in
      handle_at h.store_text (stored r word) p.state (
        mono
          (accept_byte-Returns host (word % 2 ^ 32) (stored r word) p.ready
            (command_lem word ∙ same.0 ∙ p.command))
          λ t et.
            let s = store_set_cache_byte (v % 256) r.store in
            let keeps = set_cache_byte_keeps (v % 256) r.store in
            rw (et, data_lem word, same.2)
              (record {
                state = p.state;
                ready = omega (arith, p.ready, time-resume host r.instant);
                command = same.0 ∙ p.command;
                at = omega (arith, p.at, p.bounded, keeps.0, cursor-increment_stay s);
                bounded = omega (arith, p.bounded);
                holds = λ j. rw ((increment_keeps true s).0, keeps.1) (p.holds j);
                cached = λ j hj.
                    rw ((increment_keeps true s).1, cache-set_byte (v % 256) r.store j)
                      (ground (arith, p.cached j hj, p.at));
              }))

  -- The bytes stay within the page: none goes round.
  pub nand_program-Accepting :
      (buffer : Bytes) (n at cursor : ℕ) (d c : Bytes) (r : Rig)
      → cursor % 256 + n ≤ 256
      → ((i : ℕ) → buffer i < 256)
      → Accepting cursor d c r
      → Returns h
          (Accepting
            (cursor / 256 * 256 + (cursor % 256 + n) % 256)
            d
            (filled c (cursor % 256) buffer at n))
          (nand_program h buffer at n r)
  unfolding nand_program
  nand_program-Accepting buffer zero at cursor d c r room bytes p = returns (record {
    state = p.state;
    ready = p.ready;
    command = p.command;
    at = omega (arith, p.at);
    bounded = omega (arith, p.bounded);
    holds = p.holds;
    cached = λ j hj. ground (arith, p.cached j hj);
  })
  nand_program-Accepting buffer (suc n) at cursor d c r room bytes p =
      bind (store_byte (buffer at) cursor d c r (bytes at) p) λ t q.
        let cursor' = cursor / 256 * 256 + (cursor + 1) % 256 in
        let c' : Bytes = λ j. if j == cursor % 256 then buffer at else c j in
        mono (nand_program-Accepting buffer n (at + 1) cursor' d c' t (omega arith) bytes q) λ u p'.
          Phase-adjust host p' (omega arith) (λ j. refl)
            λ j hj.
              filled-suc c buffer at (cursor % 256) (cursor' % 256) n j (omega arith) (omega arith)
