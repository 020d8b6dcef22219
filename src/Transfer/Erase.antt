-- ===== src/Transfer/Erase.antt =====
-- `jt_erase` with the correct driver and the emulator.
use v_spells_nand_use_case.Prelude.{
  ℕ, zero, suc, ◌+◌, ◌*◌, ◌/◌, ◌%◌, ◌^◌, ◌≤◌, ◌<◌, ◌≡◌, refl, ap, ◌∙◌, arith, Bytes, ◌==◌, inr,
  if◌then◌else◌,
}
use v_spells_nand_use_case.Host.{Host}
use v_spells_nand_use_case.Clock.Laws.{IsHost, Returns, returns, bind, mono, time-resume}
use v_spells_nand_use_case.Device.Constants.{ioreg_command, c_erase_execute, erase_block_duration}
use v_spells_nand_use_case.Device.Store.{store_erase_block}
use v_spells_nand_use_case.Device.Store.Laws.{
  storage_size, cursor-increment_block, data_store-erase, erase_keeps, block_keeps,
}
use v_spells_nand_use_case.Device.Rig.{erase_awaiting_execute, Rig}
use v_spells_nand_use_case.Device.Parser.{dispatch}
use v_spells_nand_use_case.Device.Parser.Messages.{set_byte, command_lem, set_command}
use v_spells_nand_use_case.Device.Parser.Ready.{handle_at, erase_execute-Returns}
use v_spells_nand_use_case.Driver.Interface.{Code, success}
use v_spells_nand_use_case.Driver.Registers.{nand_set_register}
use v_spells_nand_use_case.Driver.Alpha.{table}
use v_spells_nand_use_case.Framework.JumpTable.{block_count, erase_loop, jt_erase}
use v_spells_nand_use_case.Tester.Mirror.Ring.{stretch}
use v_spells_nand_use_case.Transfer.Phase.{Phase, IsIdle, erasing, setup_lem, stored}
use v_spells_nand_use_case.Transfer.Addresses.{erase_address}
use v_spells_nand_use_case.Transfer.Execute.{Due, wait-Due}

-- the storage after its block at `cursor` has been erased
abbrev pub block_zeroed : Bytes → ℕ → Bytes
block_zeroed d cursor j = if j / 65536 == cursor / 65536 then 0 else d j

-- the storage after `n` blocks from that of `cursor` on have been erased, going round
abbrev pub erased : ℕ → ℕ → Bytes → Bytes
erased cursor n d = stretch (cursor / 65536 * 65536) (n * 65536) (λ _. 0) 0 d

pub erased_step :
    (cursor n : ℕ) (d : Bytes) (j : ℕ)
    → cursor < storage_size
    → suc n * 65536 ≤ storage_size
    → erased ((cursor / 65536 * 65536 + 65536) % storage_size) n (block_zeroed d cursor) j
      ≡ erased cursor (suc n) d j
erased_step cursor n d j inside room = ground arith

module _ {h : Host} (host : IsHost h) where
  abbrev pub Erasing : ℕ → Bytes → Rig → Type 0
  Erasing cursor d t = (cmd : ℕ) × Phase host erase_awaiting_execute cmd cursor d (λ _. 0) t

  -- `C_ERASE_EXECUTE` zeroes the cursor's block and no other, and moves the cursor to the next block.
  pub erase_execute :
      (cursor : ℕ) (d : Bytes) (r : Rig)
      → Erasing cursor d r
      → Returns h
          (Due host erase_block_duration
            (Erasing ((cursor / 65536 * 65536 + 65536) % storage_size) (block_zeroed d cursor)))
          (nand_set_register h ioreg_command c_erase_execute r)
  unfolding nand_set_register dispatch
  erase_execute cursor d r (cmd, p) =
      let word = set_byte r.ioregisters 2 6 in
      let same = set_command r.ioregisters 6 (omega arith) in
      let s1 = store_erase_block r.store in
      let inside : r.store.cursor < storage_size = omega (arith, p.at, p.bounded) in
      let kept = erase_keeps r.store in
      handle_at h.store_text (stored r word) p.state (
        mono
          (erase_execute-Returns host (word % 2 ^ 32) (stored r word) p.ready
            (command_lem word ∙ same.0))
          λ t et. rw et (record {
            soon = omega (arith, time-resume host (h.resume r.instant));
            afterwards = λ i ready. (
              7,
              record {
                state = p.state;
                ready = ready;
                command = refl;
                at = omega (arith, cursor-increment_block s1, kept.0, inside, p.at);
                bounded = omega arith;
                holds = λ j.
                    rw ((block_keeps s1).0)
                      (data_store-erase r.store j inside ∙ ground (arith, p.at, p.holds j));
                cached = λ j hj. rw ((block_keeps s1).1, kept.1) (p.cached j hj);
              },
            );
          }))

  abbrev Erased : ℕ → ℕ → Bytes → Code × Rig → Type 0
  Erased cursor n d (code, t) = (code ≡ success) × IsIdle host (erased cursor n d) t

  erase_nothing :
      (cursor : ℕ) (d : Bytes) (r : Rig) → Erasing cursor d r → Erased cursor 0 d (success, r)
  erase_nothing cursor d r (cmd, p) = (
    refl,
    record {
      between = inr (inr (inr p.state));
      ready = p.ready;
      bounded = omega (arith, p.at, p.bounded);
      holds = λ j. p.holds j ∙ ground arith;
    },
  )

  erase_loop-Erased :
      (n cursor : ℕ) (d : Bytes) (r : Rig)
      → n * 65536 ≤ storage_size
      → Erasing cursor d r
      → Returns h (Erased cursor n d) (erase_loop (table h) n r)
  unfolding erase_loop
  erase_loop-Erased zero cursor d r room p = returns (erase_nothing cursor d r p)
  erase_loop-Erased (suc n) cursor d r room (cmd, p) =
      let next = (cursor / 65536 * 65536 + 65536) % storage_size in
      bind (erase_execute cursor d r (cmd, p)) λ t due.
        bind (wait-Due host erase_block_duration _ t (omega arith) due) λ (code, u) (ec, q). rw ec (
          mono (erase_loop-Erased n next (block_zeroed d cursor) u (omega arith) q)
            λ (code', v) (done, idle). (
              done,
              record {
                between = idle.between;
                ready = idle.ready;
                bounded = idle.bounded;
                holds = λ j. idle.holds j ∙ erased_step cursor n d j p.bounded room;
              },
            ))

  -- On an idle device `jt_erase` with the correct driver returns success, if the clock can be read, and
  -- leaves the device idle with every block that the range touches zeroed, going round the end of the
  -- storage, and no other. The range is no larger than the storage.
  pub jt_erase-erased :
      (offset size : ℕ) (d : Bytes) (r : Rig)
      → block_count offset size * 65536 ≤ storage_size
      → IsIdle host d r
      → Returns h
          (λ (code, t).
            (code ≡ success)
            × IsIdle host (erased (offset % storage_size) (block_count offset size) d) t)
          (jt_erase (table h) offset size r)
  unfolding jt_erase
  jt_erase-erased offset size d r room idle = bind (setup_lem host erasing d r idle) λ r1 b.
      bind (erase_address host d offset r1 b) λ r2 p.
        let first = offset / 65536 % 256 * 65536 + r1.store.cursor % 65536 in
        let e : first / 65536 * 65536 ≡ offset % storage_size / 65536 * 65536 = omega arith in
        mono (erase_loop-Erased (block_count offset size) first d r2 room (5, p))
          λ (code, t) (done, after). (
            done,
            record {
              between = after.between;
              ready = after.ready;
              bounded = after.bounded;
              holds = λ j.
                  after.holds j
                  ∙ ap (λ k. stretch k (block_count offset size * 65536) (λ _. 0) 0 d j) e;
            },
          )
