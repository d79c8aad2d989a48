-- ===== src/Spin/Keyed.antt =====
-- locks/spinlock/spinlock_irqsave: demo.c and irq.c, and locks/spinlock/spinlock_bh in Bottom. Processes and
-- the interrupts of the keys, or their bottom halves, print under one spin lock.
pub mod Bottom
use kernel_code.Prelude.{ℕ, ◌+◌, ◌%◌, ◌^◌, Bool, ℤ, pos, is_negative, if◌then◌else◌}
use kernel_code.Kernel.Errno.{code, done, failed}
use kernel_code.Kernel.World.{resource, misc, World, acquire, release}
use kernel_code.Kernel.Device.{Env}
use kernel_code.Kernel.Lock.{Lock}
use kernel_code.Irq
use kernel_code.Irq.Keys.{set_at}
use kernel_code.Irq.InputKeys.{is_down}
use kernel_code.Spin
use kernel_code.Spin.{Text, Pc, locking, Shared}

abbrev pub out_string_cnt : ℕ
out_string_cnt = 3

-- `lock` is `spin_lock_irqsave` and `spin_unlock_irqrestore`.
unfoldable pub print_string : (lock : Lock) → Pc → Shared lock.State → Shared lock.State × Pc
print_string lock p m = Spin.print_string out_string_cnt lock p m

-- `message i down` is what `snprintf` makes of the name of key `i`. The interrupt function counts, and
-- goes on to `print_string`.
unfoldable pub do_key_irq : (message : ℕ → Bool → Text) → (dev : ℕ) → (ℕ → ℕ) → (ℕ → ℕ) × Pc
do_key_irq message dev cnt =
    let cnt' = (cnt dev + 1) % 2 ^ 32 in (set_at cnt dev cnt', locking (message dev (is_down cnt')))

unfoldable pub request_irq_key : Env → World → ℤ × World
request_irq_key env w = Irq.request_irq_key env w

unfoldable pub free_irq_key : World → World
free_irq_key w = Irq.free_irq_key w

unfoldable pub init : Env → World → ℤ × World
init env w =
    let (ret, w') = request_irq_key env w in
    if is_negative ret then (ret, w') else (elim (env (resource misc 0)) [
      | failed e ↦ (code (failed e), free_irq_key w')
      | done ↦ (pos 0, acquire (resource misc 0) w')
    ])

unfoldable pub exit : World → World
exit w = free_irq_key (release (resource misc 0) w)
