-- ===== src/Transfer/Read.antt =====
-- Reading: the execute command loads the page, and each load of the driver takes its next byte.
use v_spells_nand_use_case.Prelude.{
  ℕ, zero, suc, ◌+◌, ◌-◌, ◌*◌, ◌/◌, ◌%◌, ◌^◌, ◌≤◌, ◌<◌, ◌≡◌, refl, ap, ◌∙◌, arith, Bytes, update,
  bit_or, false, ◌&&◌, ltb, leb, if◌then◌else◌, ◌⊎◌, inl, inr,
}
use v_spells_nand_use_case.Host.{Host}
use v_spells_nand_use_case.Clock.Laws.{IsHost, Returns, returns, bind, mono, time-resume}
use v_spells_nand_use_case.Device.Constants.{
  c_read_execute, c_dummy, ioreg_command, read_page_duration,
}
use v_spells_nand_use_case.Device.IoRegs.Laws.{IsDecodable, read_reg, read_reg-write_reg, write_reg}
use v_spells_nand_use_case.Device.Store.{store_copy_page_to_cache, store_get_cache_byte}
use v_spells_nand_use_case.Device.Store.Laws.{
  storage_size, cursor-increment_on, cache-copy_page, page_to_cache_keeps, get_cache_byte_lem,
  increment_keeps,
}
use v_spells_nand_use_case.Device.Rig.{
  MachineState, read_awaiting_execute, read_providing_data, Rig,
}
use v_spells_nand_use_case.Device.Parser.{
  enter, on_store, poke, dummy_word, command_of, dispatch, handle_watchpoint_ioregisters,
}
use v_spells_nand_use_case.Device.Parser.Messages.{
  set_byte, get_byte, command_lem, set_command, dummy_byte,
}
use v_spells_nand_use_case.Device.Parser.Ready.{
  handle_at, timed, read_execute-Returns, read_again-Returns, provide_byte-Returns,
}
use v_spells_nand_use_case.Driver.Registers.{nand_set_register, load_data}
use v_spells_nand_use_case.Driver.Alpha.{nand_read}
use v_spells_nand_use_case.Transfer.Phase.{Phase, Phase-adjust, stored}
use v_spells_nand_use_case.Transfer.Execute.{Due}

-- the page of `cursor`
abbrev pub page_bytes : Bytes → ℕ → Bytes
page_bytes d cursor j = d (cursor / 256 * 256 + j)

-- `buffer` with `n` of the bytes `v` from its index `at` on
abbrev pub taken : Bytes → ℕ → ℕ → Bytes → Bytes
taken buffer at n v j = if leb at j && ltb j (at + n) then v (j - at) else buffer j

taken-suc :
    (buffer c : Bytes) (at n b b' j : ℕ)
    → (0 < n → b' ≡ b + 1)
    → taken (update buffer at (c b)) (at + 1) n (λ i. c (b' + i)) j
      ≡ taken buffer at (suc n) (λ i. c (b + i)) j
unfolding update
taken-suc buffer c at n b b' j e = ground arith

module _ {h : Host} (host : IsHost h) where
  abbrev pub Providing : ℕ → Bytes → Bytes → Rig → Type 0
  Providing cursor d c r = Phase host read_providing_data c_dummy cursor d c r

  -- the two states that take `C_READ_EXECUTE`
  abbrev pub Reading : ℕ → Bytes → Rig → Type 0
  Reading cursor d r =
      ((c : Bytes) × Phase host read_awaiting_execute 1 cursor d c r)
      ⊎ ((c : Bytes) × Providing cursor d c r)

  loaded :
      {m : MachineState} {cmd : ℕ} {c : Bytes} (cursor : ℕ) (d : Bytes) (word : ℕ) (r : Rig)
      → Phase host m cmd cursor d c r
      → Due host read_page_duration (Providing cursor d (page_bytes d cursor)) (
          poke dummy_word (
            enter read_providing_data
              (on_store store_copy_page_to_cache (timed host read_page_duration (stored r word)))))
  loaded cursor d word r p =
      let inside : r.store.cursor < storage_size = omega (arith, p.at, p.bounded) in
      let kept = page_to_cache_keeps r.store in
      record {
        soon = omega (arith, time-resume host (h.resume r.instant));
        afterwards = λ i ready. record {
          state = refl;
          ready = ready;
          command = refl;
          at = kept.0 ∙ p.at;
          bounded = p.bounded;
          holds = λ j. rw (kept.1) (p.holds j);
          cached = λ j hj.
              cache-copy_page r.store j inside hj
              ∙ p.holds (r.store.cursor / 256 * 256 + j)
              ∙ ap (λ (x : ℕ). d (x / 256 * 256 + j)) p.at;
        };
      }

  -- `C_READ_EXECUTE` loads the cursor's page into the cache and changes nothing of the storage.
  pub read_execute :
      (cursor : ℕ) (d : Bytes) (r : Rig)
      → Reading cursor d r
      → Returns h
          (Due host read_page_duration (Providing cursor d (page_bytes d cursor)))
          (nand_set_register h ioreg_command c_read_execute r)
  unfolding nand_set_register dispatch
  read_execute cursor d r p =
      let word = set_byte r.ioregisters 2 2 in
      let e : command_of (word % 2 ^ 32) ≡ 2 =
        command_lem word ∙ (set_command r.ioregisters 2 (omega arith)).0 in
      elim p [
        | inl (c, q) ↦ handle_at h.store_text (stored r word) q.state (
            mono (read_execute-Returns host (word % 2 ^ 32) (stored r word) q.ready e)
              λ t et. rw et (loaded cursor d word r q))
        | inr (c, q) ↦ handle_at h.store_text (stored r word) q.state (
            mono (read_again-Returns host h.store_text (word % 2 ^ 32) (stored r word) q.ready e)
              λ t et. rw et (loaded cursor d word r q))
      ]

  -- A load takes the byte of the cache at the cursor, whatever was in the CPU register, and the cursor
  -- moves on.
  pub handle_load :
      (stale cursor : ℕ) (d c : Bytes) (r : Rig)
      → IsDecodable h
      → ((j : ℕ) → j < 256 → c j < 256)
      → Providing cursor d c r
      → Returns h
          (λ t.
            (read_reg h.load_reg t.regs ≡ dummy_word + c (cursor % 256))
            × Providing ((cursor + 1) % storage_size) d c t)
          (handle_watchpoint_ioregisters h h.load_text
            (record r { regs = write_reg h.load_reg stale r.regs }))
  unfolding dispatch
  handle_load stale cursor d c r decodable bytes p =
      let loading : Rig = record r { regs = write_reg h.load_reg stale r.regs } in
      let w = r.store.cache (r.store.cursor % 256) in
      let ew : w ≡ c (cursor % 256) =
        p.cached (r.store.cursor % 256) (omega arith) ∙ ap (λ (x : ℕ). c (x % 256)) p.at in
      let small : c (cursor % 256) < 256 = bytes (cursor % 256) (omega arith) in
      let ev : bit_or dummy_word (store_get_cache_byte r.store) ≡ dummy_word + c (cursor % 256) =
        rw (get_cache_byte_lem r.store, ew) (dummy_byte (c (cursor % 256)) small) in
      handle_at h.load_text loading p.state (
        mono
          (provide_byte-Returns host (r.ioregisters % 2 ^ 32) loading p.ready
            (command_lem r.ioregisters ∙ p.command) decodable)
          λ t et. (
            rw et (
                read_reg-write_reg h.load_reg (bit_or dummy_word (store_get_cache_byte r.store))
                  loading.regs
                ∙ ev),
            rw et (record {
              state = p.state;
              ready = omega (arith, p.ready, time-resume host r.instant);
              command = rw ev (omega (arith, small));
              at =
                  cursor-increment_on r.store (omega (arith, p.at, p.bounded))
                  ∙ ap (λ (x : ℕ). (x + 1) % storage_size) p.at;
              bounded = omega arith;
              holds = λ j. rw ((increment_keeps false r.store).0) (p.holds j);
              cached = λ j hj. rw ((increment_keeps false r.store).1) (p.cached j hj);
            }),
          ))

  load_byte :
      (cursor : ℕ) (d c : Bytes) (r : Rig)
      → IsDecodable h
      → ((j : ℕ) → j < 256 → c j < 256)
      → Providing cursor d c r
      → Returns h
          (λ (v, t). (v ≡ c (cursor % 256)) × Providing ((cursor + 1) % storage_size) d c t)
          (load_data h r)
  unfolding load_data
  load_byte cursor d c r decodable bytes p =
      bind (handle_load (get_byte r.ioregisters 0) cursor d c r decodable bytes p)
        λ t (er, q). returns (omega (arith, er, bytes (cursor % 256) (omega arith)), q)

  -- The loads take `n` bytes that follow one another in the page, the last of which may be its last.
  pub nand_read-Providing :
      (n at cursor : ℕ) (buffer d c : Bytes) (r : Rig)
      → IsDecodable h
      → ((j : ℕ) → j < 256 → c j < 256)
      → cursor % 256 + n ≤ 256
      → Providing cursor d c r
      → Returns h
          (λ (b, t).
            ((j : ℕ) → b j ≡ taken buffer at n (λ i. c (cursor % 256 + i)) j)
            × Providing ((cursor + n) % storage_size) d c t)
          (nand_read h buffer at n r)
  unfolding nand_read
  nand_read-Providing zero at cursor buffer d c r decodable bytes room p =
      returns (
        λ j. ground arith,
        Phase-adjust host p (omega (arith, p.bounded)) (λ j. refl) (λ j hj. refl),
      )
  nand_read-Providing (suc n) at cursor buffer d c r decodable bytes room p =
      bind (load_byte cursor d c r decodable bytes p) λ (v, t) (ev, q).
        mono
          (nand_read-Providing n (at + 1) ((cursor + 1) % storage_size) (update buffer at v) d c t
            decodable bytes (omega (arith, p.bounded)) q)
          λ (b, u) (eb, q'). (
            λ j.
                eb j
                ∙ rw ev (
                    taken-suc buffer c at n (cursor % 256) ((cursor + 1) % storage_size % 256) j
                      (λ k. omega arith)),
            Phase-adjust host q' (omega (arith, p.bounded)) (λ j. refl) (λ j hj. refl),
          )
