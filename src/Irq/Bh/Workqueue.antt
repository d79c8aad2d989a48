-- ===== src/Irq/Bh/Workqueue.antt =====
-- irq/irq_bh/workqueue/demo.c: the bottom half is in a work queue; `keybh.pkey` is the argument of the work.
use kernel_code.Prelude.{ℕ, ℤ}
use kernel_code.Kernel.World.{World}
use kernel_code.Kernel.Device.{Env}
use kernel_code.Irq
use kernel_code.Irq.Count
use kernel_code.Irq.Halves.{Halves}
use kernel_code.Irq.Halves.Older

unfoldable pub do_key_irq_tp : (dev : ℕ) → Halves (ℕ → ℕ) → Halves (ℕ → ℕ)
do_key_irq_tp dev s = Older.do_4keys dev s

unfoldable pub do_bh_key : (work : ℕ) → (ℕ → ℕ) → ℕ → ℕ
do_bh_key work cnt = Count.do_key_irq work cnt

unfoldable pub free_irq_key : World → World
free_irq_key w = Irq.free_irq_key w

unfoldable pub request_irq_key : Env → World → ℤ × World
request_irq_key env w = Irq.request_irq_key env w

unfoldable pub init : Env → World → ℤ × World
init env w = request_irq_key env w

unfoldable pub exit : World → World
exit w = free_irq_key w
