-- ===== src/Time/Timer/OlderOnce.antt =====
-- kernel_code_v1/kernel_time/demo4.c: a timer that runs once, after five seconds.
use kernel_code.Prelude.{ℕ, ◌+◌, ◌*◌, true}
use kernel_code.Time.Timer
use kernel_code.Time.Timer.Once
use kernel_code.Time.Timer.{Timer}

abbrev pub sec : ℕ
sec = 5

unfoldable pub do_timer : (jiffies : ℕ) → Timer → Timer
do_timer jiffies s = Once.do_timer_fool jiffies s

unfoldable pub init : (hz jiffies : ℕ) → Timer → Timer
init hz jiffies s = record s { pending = true; expires = jiffies + sec * hz }

unfoldable pub exit : Timer → Timer
exit s = Timer.exit s
