-- ===== src/Irq.antt =====
-- The drivers of the four keys: `request_irq_key` and `free_irq_key` as in irq/request_irq/demo.c,
-- irq/irq_bh/tasklet/demo.c and keys/key.c.
pub mod Request
pub mod Shared
pub mod Keys
pub mod Halves
pub mod Touch
pub mod Count
pub mod Bh
pub mod Older
pub mod InputKeys
mod Tests
use kernel_code.Prelude.{ℕ, ℤ, pos}
use kernel_code.Kernel.Errno.{done, failed, code}
use kernel_code.Kernel.World.{resource, irq, World, acquire, release}
use kernel_code.Kernel.Device.{Env}
use kernel_code.Kernel.Unwind.{Round, added, stopped, sweep, unwind, settle}

-- `request_irq(keys[i].irq, ...)` and the test of its result.
unfoldable pub add_irq : Env → ℕ → World → Round
add_irq env i w = elim (env (resource irq i)) [
  | failed e ↦ stopped (code (failed e)) w
  | done ↦ added (acquire (resource irq i) w)
]

-- `free_irq(keys[i].irq, &keys[i])`
unfoldable pub remove_irq : ℕ → World → World
remove_irq i w = release (resource irq i) w

unfoldable pub request_irq_key : Env → World → ℤ × World
request_irq_key env w = settle remove_irq (pos 0) (λ v. v) (sweep (add_irq env) 4 0 w)

-- `for (i = 0; i < 4; i++) free_irq(keys[i].irq, &keys[i])`
unfoldable pub free_irq_key : World → World
free_irq_key w = remove_irq 3 (remove_irq 2 (remove_irq 1 (remove_irq 0 w)))
