-- ===== src/Irq/Shared.antt =====
-- irq/irq_shared/demo.c: two functions on the interrupt of each key.
pub mod Request
pub mod Older
use kernel_code.Prelude.{ℕ, ℤ, pos}
use kernel_code.Kernel.Errno.{done, failed, code}
use kernel_code.Kernel.World.{resource, irq, irq_shared, World, acquire, release}
use kernel_code.Kernel.Device.{Env}
use kernel_code.Kernel.Unwind.{Round, added, stopped, sweep, unwind, settle}

-- `irq` stands for the request with `&keys[i]`, `irq_shared` for the one with `(void *)(1 << i)`.
unfoldable pub add_irqs : Env → ℕ → World → Round
add_irqs env i w = elim (env (resource irq i)) [
  | failed e ↦ stopped (code (failed e)) w
  | done ↦
      let w₁ = acquire (resource irq i) w in
      elim (env (resource irq_shared i)) [
        | failed e ↦ stopped (code (failed e)) (release (resource irq i) w₁)
        | done ↦ added (acquire (resource irq_shared i) w₁)
      ]
]

unfoldable pub remove_irqs : ℕ → World → World
remove_irqs i w = release (resource irq_shared i) (release (resource irq i) w)

unfoldable pub request_irq_key : Env → World → ℤ × World
request_irq_key env w = settle remove_irqs (pos 0) (λ v. v) (sweep (add_irqs env) 4 0 w)

unfoldable pub free_irq_key : World → World
free_irq_key w = remove_irqs 3 (remove_irqs 2 (remove_irqs 1 (remove_irqs 0 w)))

unfoldable pub init : Env → World → ℤ × World
init env w = request_irq_key env w

unfoldable pub exit : World → World
exit w = free_irq_key w
