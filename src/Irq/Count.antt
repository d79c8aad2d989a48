-- ===== src/Irq/Count.antt =====
-- irq/request_irq/demo.c: each interrupt of a key counts it. The request and the release of the
-- interrupts are in Irq.
pub mod Laws
use kernel_code.Prelude.{ℕ, ◌+◌, ◌%◌, ◌^◌, ℤ}
use kernel_code.Kernel.World.{World}
use kernel_code.Kernel.Device.{Env}
use kernel_code.Irq.{request_irq_key, free_irq_key}
use kernel_code.Irq.Keys.{set_at}

-- `pdev->cnt++`, where the counts are kept as 32 bits.
unfoldable pub do_key_irq : (dev : ℕ) → (ℕ → ℕ) → ℕ → ℕ
do_key_irq dev cnt = set_at cnt dev ((cnt dev + 1) % 2 ^ 32)

unfoldable pub init : Env → World → ℤ × World
init env w = request_irq_key env w

unfoldable pub exit : World → World
exit w = free_irq_key w
