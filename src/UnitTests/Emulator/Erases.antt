-- ===== src/UnitTests/Emulator/Erases.antt =====
-- What the tests of the emulator do to a device at rest: erase blocks, and reset it.
use v_spells_nand_use_case.Prelude.{
  ℕ, zero, suc, ◌+◌, ◌*◌, ◌/◌, ◌%◌, ◌≤◌, ◌<◌, ◌≡◌, refl, ap, ◌∙◌, arith, Bytes, inl, inr,
}
use v_spells_nand_use_case.Host.{Host}
use v_spells_nand_use_case.Clock.Laws.{IsHost, Returns, returns, bind, mono}
use v_spells_nand_use_case.Device.Gpio.{handle_breakpoint_gpio_set}
use v_spells_nand_use_case.Device.Parser.{parser_reset, clear_state}
use v_spells_nand_use_case.Device.Rig.{Rig}
use v_spells_nand_use_case.Device.Store.Laws.{storage_size}
use v_spells_nand_use_case.Tester.Mirror.Ring.{stretch}
use v_spells_nand_use_case.Transfer.Erase.{Erasing, erased, erased_step, block_zeroed}
use v_spells_nand_use_case.UnitTests.Emulator.{gpio_set, erase_rounds, erase_blocks}
use v_spells_nand_use_case.UnitTests.Emulator.Addresses.{send_block-erasing}
use v_spells_nand_use_case.UnitTests.Emulator.Steps.{execute-erase}
use v_spells_nand_use_case.UnitTests.Emulator.Ranges.{Rests, Rests-adjust}

module _ {h : Host} (host : IsHost h) where
  erase_rounds-Rests :
      (n cursor : ℕ) (d : Bytes) (r : Rig)
      → n * 65536 ≤ storage_size
      → ((j : ℕ) → d j < 256)
      → Erasing host cursor d r
      → Returns h (Rests host (erased cursor n d)) (erase_rounds h n r)
  unfolding erase_rounds
  erase_rounds-Rests zero cursor d r room bytes (cmd, p) = returns (record {
    idle = record {
      between = inr (inr (inr p.state));
      ready = p.ready;
      bounded = omega (arith, p.at, p.bounded);
      holds = λ j. p.holds j ∙ ground arith;
    };
    bytes = λ j. ground (arith, bytes j);
  })
  erase_rounds-Rests (suc n) cursor d r room bytes (cmd, p) =
      let next = (cursor / 65536 * 65536 + 65536) % storage_size in
      bind (execute-erase host cursor d r (cmd, p)) λ t q.
        mono
          (erase_rounds-Rests n next (block_zeroed d cursor) t (omega arith)
            (λ j. ground (arith, bytes j)) q)
          λ u s. Rests-adjust host s (λ j. erased_step cursor n d j p.bounded room)

  -- Blocks that follow one another are erased, going round the end of the storage.
  pub erase_blocks-Rests :
      (b n : ℕ) (d : Bytes) (r : Rig)
      → b < 256
      → n * 65536 ≤ storage_size
      → Rests host d r
      → Returns h (Rests host (erased (b * 65536) n d)) (erase_blocks h (b * 256) n r)
  unfolding erase_blocks
  erase_blocks-Rests b n d r hb room s =
      bind (send_block-erasing host b d r hb s.idle) λ t (low, small, p).
        mono (erase_rounds-Rests n (b * 65536 + low) d t room s.bytes (5, p)) λ u q.
          let e : (b * 65536 + low) / 65536 * 65536 ≡ b * 65536 / 65536 * 65536 = omega arith in
          Rests-adjust host q (λ j. ap (λ k. stretch k (n * 65536) (λ _. 0) 0 d j) e)

  -- A reset makes the device ready, and leaves its storage as it is.
  pub gpio_set-reset :
      (d : Bytes) (r : Rig)
      → ((j : ℕ) → r.store.data_store j ≡ d j)
      → ((j : ℕ) → d j < 256)
      → Rests host d (gpio_set h 1 1 r)
  unfolding gpio_set handle_breakpoint_gpio_set parser_reset clear_state
  gpio_set-reset d r holds bytes = record {
    idle = record {
      between = inl (refl, λ j hj. ground arith);
      ready = omega arith;
      bounded = omega arith;
      holds = holds;
    };
    bytes = bytes;
  }
