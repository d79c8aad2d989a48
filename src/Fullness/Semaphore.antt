-- ===== src/Fullness/Semaphore.antt =====
-- kernel_code_v1/lock/sema/demo.c: as kernel_code_v1/lock/mutex/demo.c, with a semaphore for the mutex.
use kernel_code.Prelude.{ℕ, Bool, ℤ}
use kernel_code.Kernel.World.{World}
use kernel_code.Kernel.Device.{Env}
use kernel_code.Fullness

unfoldable pub demo_read : (cnt : ℕ) → Bool → ℤ × Bool
demo_read cnt is_full = Fullness.demo_read cnt is_full

unfoldable pub demo_write : (cnt : ℕ) → Bool → ℤ × Bool
demo_write cnt is_full = Fullness.demo_write cnt is_full

unfoldable pub init : Env → World → ℤ × World
init env w = Fullness.init env w

unfoldable pub exit : World → World
exit w = Fullness.exit w
