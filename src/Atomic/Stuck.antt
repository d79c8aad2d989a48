-- ===== src/Atomic/Stuck.antt =====
-- What follows when a process closes the device while another one is being refused.
use kernel_code.Prelude.{◌<◌, ◌≤◌, ◌≡◌, arith}
use kernel_code.Atomic.{
  Demo, start, try_open, return_busy, release, finish_release, Step, opens, gives_up, releases,
  closes, From, here, next,
}
use kernel_code.Atomic.Exclusive.{start-Inv, From-Inv}

Step-stuck : {s t : Demo} → Step s t → s.stuck ≤ t.stuck
unfolding try_open return_busy release finish_release
Step-stuck opens = ground arith
Step-stuck (gives_up h) = omega arith
Step-stuck (releases h) = ground arith
Step-stuck (closes h) = omega arith

From-stuck : {s t : Demo} → From s t → s.stuck ≤ t.stuck
From-stuck here = omega arith
From-stuck (next path step) = omega (arith, From-stuck path, Step-stuck step)

-- Once a process has left `atomic_release` without adding 1, the device is busy for ever: in all
-- that is reached from there no process has it open.
pub busy_for_ever : {s t : Demo} → From start s → 0 < s.stuck → From s t → t.opened ≡ 0
busy_for_ever path lost later =
    omega (arith, From-stuck later, (From-Inv later (From-Inv path start-Inv)).one_owner)
