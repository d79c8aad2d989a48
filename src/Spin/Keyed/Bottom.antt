-- ===== src/Spin/Keyed/Bottom.antt =====
-- locks/spinlock/spinlock_bh: demo.c and irq.c. The functions that are those of
-- locks/spinlock/spinlock_irqsave, word for word, are defined as those.
use kernel_code.Prelude.{ℕ, Bool, ℤ}
use kernel_code.Kernel.World.{World}
use kernel_code.Kernel.Device.{Env}
use kernel_code.Kernel.Lock.{Lock}
use kernel_code.Irq.Halves.{Halves}
use kernel_code.Irq.Halves.Older
use kernel_code.Spin
use kernel_code.Spin.Keyed
use kernel_code.Spin.Keyed.{out_string_cnt}
use kernel_code.Spin.{Text, Pc, Shared}

-- `lock` is `spin_lock_bh` and `spin_unlock_bh`.
unfoldable pub print_string : (lock : Lock) → Pc → Shared lock.State → Shared lock.State × Pc
print_string lock p m = Spin.print_string out_string_cnt lock p m

unfoldable pub do_bh_key : (message : ℕ → Bool → Text) → (arg : ℕ) → (ℕ → ℕ) → (ℕ → ℕ) × Pc
do_bh_key message arg cnt = Keyed.do_key_irq message arg cnt

-- The interrupt function schedules the tasklet; there is no timer.
unfoldable pub do_key_irq_tp {ℓ} : {D : Type ℓ} → (dev : ℕ) → Halves D → Halves D
do_key_irq_tp dev s = Older.do_4keys dev s

unfoldable pub request_irq_key : Env → World → ℤ × World
request_irq_key env w = Keyed.request_irq_key env w

unfoldable pub free_irq_key : World → World
free_irq_key w = Keyed.free_irq_key w

unfoldable pub init : Env → World → ℤ × World
init env w = Keyed.init env w

unfoldable pub exit : World → World
exit w = Keyed.exit w
