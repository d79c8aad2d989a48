-- ===== src/Atomic/Tests.antt =====
-- A device that two processes open at once, and the theorems at concrete inputs.
use kernel_code.Prelude.{◌+◌, ◌≤◌, ◌<◌, ◌≡◌, refl, negsuc, arith}
use kernel_code.Atomic.{
  Demo, start, decrement, try_open, return_busy, release, opens, gives_up, releases, From, here,
  next,
}
use kernel_code.Atomic.Exclusive.{opened_once}
use kernel_code.Atomic.Stuck.{busy_for_ever}
use kernel_code.Atomic.Older

-- The first process has the device open, the second has subtracted and not yet added.
abbrev both : Demo
both = try_open (try_open start)

both-From : From start both
both-From = next (next here opens) opens

both-eq : both ≡ record { open_flags = negsuc 0; refused = 1; opened = 1; closing = 0; stuck = 0 }
unfolding try_open decrement
both-eq = refl

opened_once_example : both.opened + both.closing + both.stuck ≤ 1
opened_once_example = opened_once both-From

-- The first closes the device now, and the second returns -EBUSY.
abbrev closed : Demo
closed = release both

abbrev answered : Demo
answered = return_busy closed

opened-both : 0 < both.opened
unfolding try_open decrement
opened-both = omega arith

stuck-closed : 0 < closed.stuck
unfolding release try_open decrement
stuck-closed = omega arith

refused-closed : 0 < closed.refused
unfolding release try_open decrement
refused-closed = omega arith

busy_for_ever_example : (try_open answered).opened ≡ 0
busy_for_ever_example =
    busy_for_ever (next both-From (releases opened-both)) stuck-closed
      (next (next here (gives_up refused-closed)) opens)

-- One process opens the device of the older driver, a second is refused while the first closes it.
abbrev reopened : Older.Demo
reopened = Older.return_busy (Older.demo_release (Older.demo_open (Older.demo_open Older.start)))
