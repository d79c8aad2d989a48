-- ===== src/Fullness.antt =====
-- kernel_code_v1/lock/mutex/demo.c: a device that is full or not, written and read in turns. A call is
-- between lock and unlock as a whole, so it is one step.
pub mod Semaphore
pub mod Laws
mod Tests
use kernel_code.Prelude.{ℕ, Bool, true, false, not, ℤ, pos, ◌==◌, if◌then◌else◌}
use kernel_code.Kernel.Errno.{einval, ebusy, code}
use kernel_code.Kernel.World.{World}
use kernel_code.Kernel.Device.{Env}
use kernel_code.Spin

unfoldable pub demo_read : (cnt : ℕ) → Bool → ℤ × Bool
demo_read cnt is_full =
    if cnt == 0 then (einval, is_full) else if is_full then (pos cnt, false) else (ebusy, is_full)

unfoldable pub demo_write : (cnt : ℕ) → Bool → ℤ × Bool
demo_write cnt is_full =
    if cnt == 0
    then (einval, is_full)
    else if not is_full
    then (pos cnt, true)
    else (ebusy, is_full)

unfoldable pub init : Env → World → ℤ × World
init env w = Spin.init env w

unfoldable pub exit : World → World
exit w = Spin.exit w
