-- ===== src/Transfer/Execute.antt =====
-- An execute command and the wait that follows it.
use v_spells_nand_use_case.Prelude.{
  ℕ, ◌+◌, ◌*◌, ◌/◌, ◌%◌, ◌^◌, ◌≤◌, ◌<◌, ◌≡◌, refl, ap, ◌∙◌, arith, Bytes, ◌==◌, if◌then◌else◌, sym,
  subst,
}
use v_spells_nand_use_case.Outcome.{◌>>=◌}
use v_spells_nand_use_case.Host.{Host}
use v_spells_nand_use_case.Clock.Laws.{IsHost, Returns, bind, mono, time, time-resume}
use v_spells_nand_use_case.Device.Constants.{c_program_execute, ioreg_command, write_page_duration}
use v_spells_nand_use_case.Device.Store.{store_copy_page_from_cache, store_clear_cache}
use v_spells_nand_use_case.Device.Store.Laws.{
  storage_size, cursor-increment_page, data_store-copy_page, copy_page_keeps, page_keeps,
  clear_cache_lem,
}
use v_spells_nand_use_case.Device.Rig.{Rig}
use v_spells_nand_use_case.Device.Parser.{dispatch}
use v_spells_nand_use_case.Device.Parser.Messages.{set_byte, command_lem, set_command}
use v_spells_nand_use_case.Device.Parser.Ready.{handle_at, program_execute-Returns}
use v_spells_nand_use_case.Driver.Interface.{Code, success, failure}
use v_spells_nand_use_case.Driver.Registers.{nand_set_register}
use v_spells_nand_use_case.Driver.Alpha.{nand_wait}
use v_spells_nand_use_case.Driver.Wait.{Waited, moved, nand_wait-Waited}
use v_spells_nand_use_case.Transfer.Phase.{stored}
use v_spells_nand_use_case.Transfer.Program.{Accepting}

-- the storage after a page of it has been programmed from the cache
abbrev pub paged : Bytes → Bytes → ℕ → Bytes
paged d c cursor j = if j / 256 == cursor / 256 then c (j % 256) else d j

module _ {h : Host} (host : IsHost h) where
  -- The device is due within `duration`, and has `P` from then on.
  pub record Due (duration : ℕ) (P : Rig → Type 0) (t : Rig) : Type 0 where
    pub soon : t.deadline ≤ time host t.instant + duration
    pub afterwards : (i : ℕ) → t.deadline ≤ time host i → P (moved host i t)

  -- A wait for longer than that succeeds.
  pub wait-Due :
      (duration : ℕ) (P : Rig → Type 0) (t : Rig)
      → duration < 2 ^ 32
      → Due duration P t
      → Returns h (λ (code, u). (code ≡ success) × P u) (nand_wait h (duration + 25) t)
  wait-Due duration P t short due =
      mono (nand_wait-Waited host (duration + 25) t (omega arith)) λ (code, u) w. go code w
    where
      go :
          (code : Code) {u : Rig}
          → Waited host t (time host t.instant + (duration + 25)) (code, u)
          → (code ≡ success) × P u
      go success {u} w = (
        refl,
        subst P (sym w.same) (
            due.afterwards u.instant
              (omega (arith, w.ready refl, ap (λ (x : Rig). x.deadline) w.same))),
      )
      go failure w = absurd (omega (arith, w.late refl, due.soon))

  -- `C_PROGRAM_EXECUTE` writes the cache to the cursor's page and no other, clears the cache and moves
  -- the cursor to the next page.
  pub program_execute :
      (cursor : ℕ) (d c : Bytes) (r : Rig)
      → Accepting host cursor d c r
      → Returns h
          (Due write_page_duration (
            Accepting host ((cursor / 256 * 256 + 256) % storage_size) (paged d c cursor) (λ _. 0)))
          (nand_set_register h ioreg_command c_program_execute r)
  unfolding nand_set_register dispatch
  program_execute cursor d c r p =
      let word = set_byte r.ioregisters 2 4 in
      let same = set_command r.ioregisters 4 (omega arith) in
      let s1 = store_copy_page_from_cache r.store in
      let s2 = store_clear_cache s1 in
      let inside : r.store.cursor < storage_size = omega (arith, p.at, p.bounded) in
      let copied = copy_page_keeps r.store inside in
      let cleared = clear_cache_lem s1 in
      let moved_in : s2.cursor < storage_size = omega (arith, cleared.1, copied.0, inside) in
      handle_at h.store_text (stored r word) p.state (
        mono
          (program_execute-Returns host (word % 2 ^ 32) (stored r word) p.ready
            (command_lem word ∙ same.0))
          λ t et. rw et (record {
            soon = omega (arith, time-resume host (h.resume r.instant));
            afterwards = λ i ready. record {
              state = p.state;
              ready = ready;
              command = refl;
              at = omega (arith, cursor-increment_page s2 moved_in, cleared.1, copied.0, p.at);
              bounded = omega arith;
              holds = λ j.
                  rw ((page_keeps s2).0, cleared.0)
                    (data_store-copy_page r.store j inside
                      ∙ ground (arith, p.at, p.cached (j % 256), p.holds j));
              cached = λ j hj. rw ((page_keeps s2).1) (cleared.2 j hj);
            };
          }))

  -- The execute command of a program and the wait after it return success, if the clock can be read: the
  -- cache is written to the cursor's page and to no other, and the device is ready with a clear cache
  -- at the next page, going round the end of the storage.
  pub program_page :
      (cursor : ℕ) (d c : Bytes) (r : Rig)
      → Accepting host cursor d c r
      → Returns h
          (λ (code, u).
            (code ≡ success)
            × Accepting host
                ((cursor / 256 * 256 + 256) % storage_size)
                (paged d c cursor)
                (λ _. 0)
                u)
          (nand_set_register h ioreg_command c_program_execute r >>= nand_wait h 625)
  program_page cursor d c r p =
      bind (program_execute cursor d c r p)
        λ t due. wait-Due write_page_duration _ t (omega arith) due
