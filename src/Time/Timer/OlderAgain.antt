-- ===== src/Time/Timer/OlderAgain.antt =====
-- kernel_code_v1/kernel_time/demo5.c: a timer that runs every five seconds.
use kernel_code.Prelude.{ℕ, ◌+◌, ◌*◌, true, [], ◌∷◌, ◌++◌}
use kernel_code.Time.Timer
use kernel_code.Time.Timer.OlderOnce
use kernel_code.Time.Timer.OlderOnce.{sec}
use kernel_code.Time.Timer.{Timer}

unfoldable pub do_timer : (hz jiffies : ℕ) → Timer → Timer
do_timer hz jiffies s = record {
  pending = true;
  expires = jiffies + sec * hz;
  printed = s.printed ++ jiffies ∷ [];
}

unfoldable pub init : (hz jiffies : ℕ) → Timer → Timer
init hz jiffies s = OlderOnce.init hz jiffies s

unfoldable pub exit : Timer → Timer
exit s = Timer.exit s
