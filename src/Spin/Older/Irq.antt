-- ===== src/Spin/Older/Irq.antt =====
-- kernel_code_v1/lock/spin_irq: demo.c and key.c. The functions that are those of
-- locks/spinlock/spinlock_irqsave, word for word, are defined as those.
use kernel_code.Prelude.{ℕ, Bool, ℤ}
use kernel_code.Kernel.World.{World}
use kernel_code.Kernel.Device.{Env}
use kernel_code.Kernel.Lock.{Lock}
use kernel_code.Spin
use kernel_code.Spin.Keyed
use kernel_code.Spin.Older.{cnt}
use kernel_code.Spin.{Text, Pc, Shared}

-- `lock` is `spin_lock_irqsave` and `spin_unlock_irqrestore`.
unfoldable pub print_kcnt_str : (lock : Lock) → Pc → Shared lock.State → Shared lock.State × Pc
print_kcnt_str lock p m = Spin.print_string cnt lock p m

unfoldable pub do_keys : (message : ℕ → Bool → Text) → (arg : ℕ) → (ℕ → ℕ) → (ℕ → ℕ) × Pc
do_keys message arg cnt = Keyed.do_key_irq message arg cnt

unfoldable pub irq_keys_register : Env → World → ℤ × World
irq_keys_register env w = Keyed.request_irq_key env w

unfoldable pub irq_keys_unregister : World → World
irq_keys_unregister w = Keyed.free_irq_key w

unfoldable pub init : Env → World → ℤ × World
init env w = Keyed.init env w

unfoldable pub exit : World → World
exit w = Keyed.exit w
