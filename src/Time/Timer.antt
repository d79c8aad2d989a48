-- ===== src/Time/Timer.antt =====
-- time/timer/demo1.c: a timer whose function prints and starts it again. The timer of time/timer/demo0.c,
-- which runs once, is in Once, those of kernel_code_v1/kernel_time are in OlderOnce, OlderAgain and OlderStatic.
pub mod Once
pub mod OlderOnce
pub mod OlderAgain
pub mod OlderStatic
pub mod Laws
use kernel_code.Prelude.{ℕ, ◌+◌, ◌*◌, Bool, true, false, List, [], ◌∷◌, ◌++◌, if◌then◌else◌}

-- When the timer is to run, if it is, and when its function printed, oldest first, in ticks.
pub record Timer : Type 0 where
  pub pending : Bool
  pub expires : ℕ
  pub printed : List ℕ

abbrev pub nothing_set : Timer
nothing_set = record { pending = false; expires = 0; printed = [] }

-- The kernel runs the function `late` ticks after the timer expires.
abbrev pub fire : (function : ℕ → Timer → Timer) → (late : ℕ) → Timer → Timer
fire function late s =
    if s.pending then function (s.expires + late) (record s { pending = false }) else s

abbrev pub sec : ℕ
sec = 3

module _ (hz : ℕ) where
  -- `mod_timer(&timer, jiffies + SEC*HZ)` after the `printk`
  unfoldable pub do_timer_fool : (jiffies : ℕ) → Timer → Timer
  do_timer_fool jiffies s = record {
    pending = true;
    expires = jiffies + sec * hz;
    printed = s.printed ++ jiffies ∷ [];
  }

  unfoldable pub init : (jiffies : ℕ) → Timer → Timer
  init jiffies s = record s { pending = true; expires = jiffies + sec * hz }

-- `del_timer_sync`
unfoldable pub exit : Timer → Timer
exit s = record s { pending = false }
