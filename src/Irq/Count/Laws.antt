-- ===== src/Irq/Count/Laws.antt =====
-- Which interrupts are counted: all of them by the interrupt function itself, only the last one before it
-- runs by a bottom half; and what may still run after an exit.
use kernel_code.Prelude.{
  ℕ, ◌+◌, ◌<◌, ◌%◌, ◌^◌, ◌≡◌, refl, true, false, List, [], ◌∷◌, ◌++◌, arith, ◌==◌, if◌then◌else◌,
}
use kernel_code.Irq.Halves.{Halves, handled, expire, run_tasklet, do_timer_key, do_key_irq_tp}
use kernel_code.Irq.Halves.Older.{interrupts, interrupts-last}
use kernel_code.Irq.Count.{do_key_irq}

-- How often key `i` stands in the list.
abbrev pub occurs : ℕ → List ℕ → ℕ
occurs i [] = 0
occurs i (k ∷ ks) = if k == i then occurs i ks + 1 else occurs i ks

-- The interrupt function counts every interrupt of every key, with 32 bits.
pub every_interrupt_counts :
    (ks : List ℕ) (cnt : ℕ → ℕ) (i : ℕ)
    → cnt i < 2 ^ 32
    → handled do_key_irq ks cnt i ≡ (cnt i + occurs i ks) % 2 ^ 32
unfolding do_key_irq
every_interrupt_counts [] cnt i h = ground arith
every_interrupt_counts (k ∷ ks) cnt i h =
    let bound : do_key_irq k cnt i < 2 ^ 32 = ground arith in
    ground (arith, every_interrupt_counts ks (do_key_irq k cnt) i bound)

module _ {ℓ} {D : Type ℓ} (work : ℕ → D → D) where
  -- A bottom half that the interrupt function schedules handles one interrupt only, the last before it
  -- runs: those before, of whatever keys, are lost.
  pub last_interrupt_counts :
      (ks : List ℕ) (k : ℕ) (s : Halves D)
      → let t = run_tasklet work (interrupts (ks ++ k ∷ []) s) in
        (t.device ≡ work k s.device) × (t.task.pending ≡ false)
  unfolding run_tasklet
  last_interrupt_counts ks k s = rw (interrupts-last ks k s) (refl, refl)

  -- `tasklet_kill` lets a scheduled tasklet run to its end; `del_timer_sync` stops the timer.
  abbrev pub del_timer_sync : Halves D → Halves D
  del_timer_sync s = record s { timer = record s.timer { pending = false } }

  -- `keys_exit` of the touch screens kills the tasklet before it stops the timer. If the timer of a key
  -- runs out between the two, the tasklet is to run after the exit, for this key.
  pub exit_leaves_tasklet :
      (dev : ℕ) (s : Halves D)
      → let t = del_timer_sync (expire (run_tasklet work (do_key_irq_tp dev s))) in
        (t.task.pending ≡ true) × (t.task.arg ≡ dev)
  unfolding do_key_irq_tp run_tasklet expire do_timer_key
  exit_leaves_tasklet dev s = ground arith
