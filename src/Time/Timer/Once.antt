-- ===== src/Time/Timer/Once.antt =====
-- time/timer/demo0.c: a timer that runs once.
use kernel_code.Prelude.{ℕ, [], ◌∷◌, ◌++◌}
use kernel_code.Time.Timer
use kernel_code.Time.Timer.{Timer}

unfoldable pub do_timer_fool : (jiffies : ℕ) → Timer → Timer
do_timer_fool jiffies s = record s { printed = s.printed ++ jiffies ∷ [] }

unfoldable pub init : (hz jiffies : ℕ) → Timer → Timer
init hz jiffies s = Timer.init hz jiffies s

unfoldable pub exit : Timer → Timer
exit s = Timer.exit s
