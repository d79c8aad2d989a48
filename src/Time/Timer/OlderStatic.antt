-- ===== src/Time/Timer/OlderStatic.antt =====
-- kernel_code_v1/kernel_time/demo7.c: the timer of demo5.c, as a static variable.
use kernel_code.Prelude.{ℕ, ◌+◌, ◌*◌, ◌≡◌, ap, arith, true, false, []}
use kernel_code.Time.Timer
use kernel_code.Time.Timer.OlderAgain
use kernel_code.Time.Timer.OlderOnce
use kernel_code.Time.Timer.OlderOnce.{sec}
use kernel_code.Time.Timer.{Timer, nothing_set}

-- `DEFINE_TIMER(timer, do_timer, SEC*HZ, 0)`
abbrev pub timer : (hz : ℕ) → Timer
timer hz = record { pending = false; expires = sec * hz; printed = [] }

unfoldable pub do_timer : (hz jiffies : ℕ) → Timer → Timer
do_timer hz jiffies s = OlderAgain.do_timer hz jiffies s

unfoldable pub init : (jiffies : ℕ) → Timer → Timer
init jiffies s = record s { pending = true; expires = s.expires + jiffies }

unfoldable pub exit : Timer → Timer
exit s = Timer.exit s

-- The static timer starts like the one that is set up at run time.
pub init-timer : (hz jiffies : ℕ) → init jiffies (timer hz) ≡ OlderAgain.init hz jiffies nothing_set
unfolding init OlderAgain.init OlderOnce.init Timer.init
init-timer hz jiffies =
    let same : sec * hz + jiffies ≡ jiffies + sec * hz = omega arith in
    ap (λ e. record { pending = true; expires = e; printed = [] }) same
