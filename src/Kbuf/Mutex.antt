-- ===== src/Kbuf/Mutex.antt =====
-- locks/mutex/kbuf.c: the calls on a kbuf under a `struct mutex`, and the functions of the module.
use kernel_code.Prelude.{ℕ, ℤ}
use kernel_code.Kernel.World.{World}
use kernel_code.Kernel.Device.{Env}
use kernel_code.Kernel.Memory.{UserAccess}
use kernel_code.Kernel.Lock.{Lock}
use kernel_code.Kbuf.Script.{Op}
use kernel_code.Kbuf.Locked.{Pc, Shared}
use kernel_code.Kbuf.Locked
use kernel_code.Kbuf.Setup

-- `lock` is what the kernel implements `struct mutex` by.
module _ (user : UserAccess) (lock : Lock) where
  unfoldable pub begin : Op → Shared lock.State → Shared lock.State × Pc
  begin op m = Locked.begin user lock op m

  unfoldable pub advance : Pc → Shared lock.State → Shared lock.State × Pc
  advance p m = Locked.advance user lock p m

-- `mutex_init` acquires nothing.
unfoldable pub init : Env → (major assigned : ℕ) → World → ℤ × ℕ × World
init env major assigned w = Setup.init env major assigned w

unfoldable pub exit : World → World
exit w = Setup.exit w
