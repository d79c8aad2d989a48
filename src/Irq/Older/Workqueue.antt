-- ===== src/Irq/Older/Workqueue.antt =====
-- kernel_code_v1/irq_bh/workqueue_bh/key.c: the bottom half is in a work queue; `keywork.pdev` is its argument.
use kernel_code.Prelude.{ℕ, ℤ}
use kernel_code.Kernel.World.{World}
use kernel_code.Kernel.Device.{Env}
use kernel_code.Irq.Count
use kernel_code.Irq.Halves.{Halves}
use kernel_code.Irq.Halves.Older as Order
use kernel_code.Irq.Older

unfoldable pub do_4keys : (arg : ℕ) → Halves (ℕ → ℕ) → Halves (ℕ → ℕ)
do_4keys arg s = Order.do_4keys arg s

unfoldable pub do_4key_bh : (arg : ℕ) → (ℕ → ℕ) → ℕ → ℕ
do_4key_bh arg cnt = Count.do_key_irq arg cnt

unfoldable pub register_4keys : Env → World → ℤ × World
register_4keys env w = Older.register_4keys env w

unfoldable pub unregister_4keys : World → World
unregister_4keys w = Older.unregister_4keys w

unfoldable pub init : Env → World → ℤ × World
init env w = register_4keys env w

unfoldable pub exit : World → World
exit w = unregister_4keys w
