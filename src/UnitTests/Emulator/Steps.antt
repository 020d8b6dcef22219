-- ===== src/UnitTests/Emulator/Steps.antt =====
-- The steps that the tests of the emulator share, on a device at rest.
use v_spells_nand_use_case.Prelude.{
  ℕ, zero, suc, ◌+◌, ◌-◌, ◌*◌, ◌/◌, ◌%◌, ◌≤◌, ◌<◌, ◌≡◌, refl, ap, ◌∙◌, arith, Bytes, ◌==◌, ltb, inl,
  inr, true, if◌then◌else◌, bit_and, mask_byte_0,
}
use v_spells_nand_use_case.Host.{Host}
use v_spells_nand_use_case.Clock.Laws.{IsHost, Returns, returns, bind, mono}
use v_spells_nand_use_case.Device.Constants.{
  read_page_duration, write_page_duration, erase_block_duration,
}
use v_spells_nand_use_case.Device.IoRegs.{mask_data}
use v_spells_nand_use_case.Device.IoRegs.Laws.{IsDecodable, read_reg}
use v_spells_nand_use_case.Device.Rig.{erase_awaiting_execute, Rig}
use v_spells_nand_use_case.Device.Store.Laws.{storage_size}
use v_spells_nand_use_case.Transfer.Phase.{Phase, Phase-adjust}
use v_spells_nand_use_case.Transfer.Program.{Accepting, store_byte}
use v_spells_nand_use_case.Transfer.Execute.{paged, program_execute}
use v_spells_nand_use_case.Transfer.Read.{page_bytes, Providing, Reading, read_execute, handle_load}
use v_spells_nand_use_case.Transfer.Erase.{Erasing, block_zeroed, erase_execute}
use v_spells_nand_use_case.UnitTests.Emulator.{load_word, send_data, execute, confirm}
use v_spells_nand_use_case.UnitTests.Emulator.Words.{
  commanded, store_command, store_value, Phase-commanded, wait_for_device-Due,
}

-- a page's cache with `n` bytes `v` from `start` on, going round the end of the page
abbrev pub ring : Bytes → ℕ → ℕ → ℕ → Bytes
ring c start n v j = if ltb ((j + 256 - start % 256) % 256) n then v else c j

ring-suc :
    (c : Bytes) (start start' n v j : ℕ)
    → j < 256
    → n < 256
    → start' % 256 ≡ (start + 1) % 256
    → ring (λ i. if i == start % 256 then v else c i) start' n v j ≡ ring c start (suc n) v j
ring-suc c start start' n v j hj hn e = ground arith

-- the storage with a page full of `v`
abbrev pub page_of : Bytes → ℕ → ℕ → Bytes
page_of d page v j = if j / 256 == page then v else d j

module _ {h : Host} (host : IsHost h) where
  -- Data goes to the cache, and goes round within the page.
  pub send_data-Accepting :
      (n v cursor : ℕ) (d c : Bytes) (r : Rig)
      → n ≤ 256
      → v < 256
      → Accepting host cursor d c r
      → Returns h
          (Accepting host (cursor / 256 * 256 + (cursor + n) % 256) d (ring c cursor n v))
          (send_data h v n r)
  unfolding send_data
  send_data-Accepting zero v cursor d c r room small p =
      returns (Phase-adjust host p (omega arith) (λ j. refl) λ j hj. ground arith)
  send_data-Accepting (suc n) v cursor d c r room small p =
      let next = cursor / 256 * 256 + (cursor + 1) % 256 in
      rw (store_value h 7 (omega arith) r v small) (
        bind
          (store_byte host v cursor d c (commanded 7 r) small
            (Phase-commanded host r (omega arith) p))
          λ t q.
            mono
              (send_data-Accepting n v next d (λ j. if j == cursor % 256 then v else c j) t
                (omega arith) small q)
              λ u p'.
                Phase-adjust host p' (omega arith) (λ j. refl)
                  λ j hj. ring-suc c cursor next n v j hj (omega arith) (omega arith))

  pub execute-program :
      (cursor : ℕ) (d c : Bytes) (r : Rig)
      → Accepting host cursor d c r
      → Returns h
          (Accepting host ((cursor / 256 * 256 + 256) % storage_size) (paged d c cursor) (λ _. 0))
          (execute h 4 r)
  unfolding execute
  execute-program cursor d c r p = rw (store_command h 7 (omega arith) r 4 (omega arith)) (
      bind
        (program_execute host cursor d c (commanded 7 r) (Phase-commanded host r (omega arith) p))
        λ t due. wait_for_device-Due host write_page_duration _ t (omega arith) due)

  pub execute-read :
      (cursor : ℕ) (d : Bytes) (r : Rig)
      → Reading host cursor d r
      → Returns h (Providing host cursor d (page_bytes d cursor)) (execute h 2 r)
  unfolding execute
  execute-read cursor d r (inl (c, p)) = rw (store_command h 1 (omega arith) r 2 (omega arith)) (
      bind
        (read_execute host cursor d (commanded 1 r)
          (inl (c, Phase-commanded host r (omega arith) p)))
        λ t due. wait_for_device-Due host read_page_duration _ t (omega arith) due)
  execute-read cursor d r (inr (c, p)) = rw (store_command h 7 (omega arith) r 2 (omega arith)) (
      bind
        (read_execute host cursor d (commanded 7 r)
          (inr (c, Phase-commanded host r (omega arith) p)))
        λ t due. wait_for_device-Due host read_page_duration _ t (omega arith) due)

  pub execute-erase :
      (cursor : ℕ) (d : Bytes) (r : Rig)
      → Erasing host cursor d r
      → Returns h
          (Erasing host ((cursor / 65536 * 65536 + 65536) % storage_size) (block_zeroed d cursor))
          (execute h 6 r)
  unfolding execute
  execute-erase cursor d r (cmd, p) =
      let still : Phase host erase_awaiting_execute 5 cursor d (λ _. 0) (commanded 5 r) = record {
        state = p.state;
        ready = p.ready;
        command = refl;
        at = p.at;
        bounded = p.bounded;
        holds = p.holds;
        cached = p.cached;
      } in
      rw (store_command h 5 (omega arith) r 6 (omega arith)) (
        bind (erase_execute host cursor d (commanded 5 r) (5, still))
          λ t due. wait_for_device-Due host erase_block_duration _ t (omega arith) due)

  pub load_word-Providing :
      (cursor : ℕ) (d c : Bytes) (r : Rig)
      → IsDecodable h
      → ((j : ℕ) → j < 256 → c j < 256)
      → Providing host cursor d c r
      → Returns h
          (λ (word, t).
            (bit_and word mask_data ≡ c (cursor % 256))
            × Providing host ((cursor + 1) % storage_size) d c t)
          (load_word h r)
  unfolding load_word
  load_word-Providing cursor d c r decodable bytes p =
      bind (handle_load host r.ioregisters cursor d c r decodable bytes p) λ t (er, q). returns (
        omega (
          arith,
          er,
          bytes (cursor % 256) (omega arith),
          mask_byte_0 (read_reg h.load_reg t.regs),
        ),
        q,
      )

  -- The bytes that are read are those of the cache from the cursor on, going round the end of the page.
  pub confirm-Providing :
      (n v cursor : ℕ) (d c : Bytes) (r : Rig)
      → IsDecodable h
      → ((j : ℕ) → j < 256 → c j < 256)
      → ((i : ℕ) → i < n → c ((cursor + i) % 256) ≡ v)
      → Providing host cursor d c r
      → Returns h (Providing host ((cursor + n) % storage_size) d c) (confirm h v n r)
  unfolding confirm
  confirm-Providing zero v cursor d c r decodable bytes same p =
      returns (Phase-adjust host p (omega (arith, p.bounded)) (λ j. refl) (λ j hj. refl))
  confirm-Providing (suc n) v cursor d c r decodable bytes same p =
      bind (load_word-Providing cursor d c r decodable bytes p) λ (word, t) (ew, q).
        let hit : (bit_and word mask_data == v) ≡ true = ground (arith, ew, same 0) in
        rw hit (
          mono
            (confirm-Providing n v ((cursor + 1) % storage_size) d c t decodable bytes
              (λ i hi. ap c (omega (arith, p.bounded)) ∙ same (suc i) (omega arith)) q)
            λ u p'. Phase-adjust host p' (omega (arith, p.bounded)) (λ j. refl) (λ j hj. refl))
