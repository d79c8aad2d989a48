-- ===== src/Spin/Older/Trylock.antt =====
-- kernel_code_v1/lock/spin_trylock/demo.c: an open takes the lock, the release of the file gives it back.
use kernel_code.Prelude.{ℤ, pos, some, none}
use kernel_code.Kernel.Errno.{ebusy}
use kernel_code.Kernel.World.{World}
use kernel_code.Kernel.Device.{Env}
use kernel_code.Kernel.Lock.{Lock}
use kernel_code.Spin

module _ (lock : Lock) where
  unfoldable pub demo_open : lock.State → ℤ × lock.State
  demo_open l = elim (lock.try l) [ none ↦ (ebusy, l) | some l' ↦ (pos 0, l') ]

  unfoldable pub demo_release : lock.State → lock.State
  demo_release l = lock.leave l

unfoldable pub init : Env → World → ℤ × World
init env w = Spin.init env w

unfoldable pub exit : World → World
exit w = Spin.exit w
