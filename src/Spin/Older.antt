-- ===== src/Spin/Older.antt =====
-- kernel_code_v1/lock/spin/demo.c; kernel_code_v1/lock/spin_irq, kernel_code_v1/lock/spin_irqbh and
-- kernel_code_v1/lock/spin_trylock are in Irq, Bottom and Trylock. Each string is printed five times.
pub mod Irq
pub mod Bottom
pub mod Trylock
use kernel_code.Prelude.{ℕ, ℤ}
use kernel_code.Kernel.World.{World}
use kernel_code.Kernel.Device.{Env}
use kernel_code.Kernel.Lock.{Lock}
use kernel_code.Spin
use kernel_code.Spin.{Pc, Shared, System}

abbrev pub cnt : ℕ
cnt = 5

-- `kcnt` stands at 1.
abbrev pub start : (lock : Lock) → System cnt lock
start lock = Spin.start cnt lock 1

unfoldable pub print_kcnt_str : (lock : Lock) → Pc → Shared lock.State → Shared lock.State × Pc
print_kcnt_str lock p m = Spin.print_string cnt lock p m

unfoldable pub init : Env → World → ℤ × World
init env w = Spin.init env w

unfoldable pub exit : World → World
exit w = Spin.exit w
