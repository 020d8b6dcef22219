-- ===== src/Device/Traps/Safety.antt =====
-- The whole emulator keeps its store within bounds.
use v_spells_nand_use_case.Prelude.{ℕ, ◌<◌, List, [], ◌∷◌, ◌==◌, ◌&&◌, arith, memset}
use v_spells_nand_use_case.Host.{Host}
use v_spells_nand_use_case.Device.Store.{store_init, store_clear_cache, store_clear_cursor}
use v_spells_nand_use_case.Device.Store.Bounds.{clear-IsBounded}
use v_spells_nand_use_case.Device.Rig.{Rig}
use v_spells_nand_use_case.Device.Parser.{parser_init, parser_reset, clear_state}
use v_spells_nand_use_case.Device.Parser.Safety.{
  IfEnds, ends, and_then, chosen, branch, IsSafe, reads_deadline, handle-IsSafe,
}
use v_spells_nand_use_case.Device.Gpio.{handle_breakpoint_gpio_set, handle_breakpoint_gpio_get}
use v_spells_nand_use_case.Device.Traps.{
  gpio_set_length, gpio_get_length, rip_in_function, Layout, Wait, exited, stopped, handle_trap,
  trap_loop, device_init,
}

module _ (l : Layout) (h : Host) where
  gpio_set-IsSafe :
      (pin value : ℕ) (r : Rig) → IsSafe r → IsSafe (handle_breakpoint_gpio_set h pin value r)
  unfolding handle_breakpoint_gpio_set parser_reset clear_state
  gpio_set-IsSafe pin value r b = chosen (pin == 1 && value == 1) _ _ (clear-IsBounded r.store b) b

  gpio_get-IsSafe :
      (pin retval : ℕ) (r : Rig)
      → IsSafe r
      → IfEnds (λ (v, t). IsSafe t) (handle_breakpoint_gpio_get h pin retval r)
  unfolding handle_breakpoint_gpio_get
  gpio_get-IsSafe pin retval r b =
      branch (pin == 0) (and_then (reads_deadline h r b) λ (busy, t) c. ends c)
        (branch (pin == 1) (ends b) (ends b))

  trap_loop-IsSafe : (ws : List Wait) (r : Rig) → IsSafe r → IfEnds IsSafe (trap_loop l h ws r)
  unfolding trap_loop handle_trap
  trap_loop-IsSafe [] r b = ends b
  trap_loop-IsSafe (exited ∷ ws) r b = ends b
  trap_loop-IsSafe (stopped c ∷ ws) r b =
      and_then {P = λ (v, t). IsSafe t}
        (branch (rip_in_function c.rip l.gpio_set gpio_set_length)
          (ends (gpio_set-IsSafe c.rdi c.rsi _ b))
          (branch (rip_in_function c.rip l.gpio_get gpio_get_length)
            (gpio_get-IsSafe c.rdi c.retval _ b)
            (and_then (handle-IsSafe h c.text _ b) λ t k. ends k)))
        λ (v, t) k. trap_loop-IsSafe ws t k

  -- Whatever stops of the child the tracer finds, with whatever registers, program text and words in
  -- the IO registers: if the two arrays hold bytes at first, then the cursor lies inside the storage
  -- and the arrays hold bytes when the emulator's loop is over, unless the emulator stops.
  pub device_init-IsSafe :
      (ws : List Wait) (r : Rig)
      → ((j : ℕ) → r.store.data_store j < 256)
      → ((j : ℕ) → r.store.cache j < 256)
      → IfEnds IsSafe (device_init l h ws r)
  unfolding device_init parser_init store_init store_clear_cache store_clear_cursor memset
  device_init-IsSafe ws r data_bytes cache_bytes = trap_loop-IsSafe ws (parser_init r) (record {
    within = omega arith;
    data_bytes = λ j. ground (arith, data_bytes j);
    cache_bytes = λ j. ground (arith, cache_bytes j);
  })
