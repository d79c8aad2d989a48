-- ===== src/Irq/Shared/Older.antt =====
-- kernel_code_v1/shared_irq/key.c: two functions on the interrupt of each key.
use kernel_code.Prelude.{ℕ, arith, ◌≡◌, ℤ, pos, if◌then◌else◌}
use kernel_code.Kernel.World.{World}
use kernel_code.Kernel.Device.{Env}
use kernel_code.Kernel.Unwind.{sweep, unwind, settle, all_granted, first_error}
use kernel_code.Irq.Count
use kernel_code.Irq.Shared.{add_irqs, remove_irqs}
use kernel_code.Irq.Shared.Request.{with_all, remove_irqs-take, irqs_rounds, settle-with_all}

-- `irq` stands for the request with `keys+i`, `irq_shared` for the one with `(void *)(i+1)`.
unfoldable pub register_4keys : Env → World → ℤ × World
register_4keys env w = settle remove_irqs (pos 0) (λ v. v) (sweep (add_irqs env) 4 0 w)

unfoldable pub unregister_4keys : World → World
unregister_4keys w = unwind remove_irqs 4 w

unfoldable pub do_4keys_0 : (arg : ℕ) → (ℕ → ℕ) → ℕ → ℕ
do_4keys_0 arg cnt = Count.do_key_irq arg cnt

unfoldable pub init : Env → World → ℤ × World
init env w = register_4keys env w

unfoldable pub exit : World → World
exit w = unregister_4keys w

unregister-all : (w : World) → unregister_4keys (with_all w) ≡ w
unfolding unregister_4keys unwind
unregister-all w = simp remove_irqs-take

-- `demo_init` returns 0, and `demo_exit` then gives back the functions on all four interrupts; or it
-- returns an error and holds nothing more than before.
pub init-exit_older_shared :
    (env : Env) (w : World)
    → let (ret, w') = init env w in
      if all_granted (irqs_rounds env) 4 0
      then (ret ≡ pos 0) × (exit w' ≡ w)
      else (ret ≡ first_error (irqs_rounds env) 4 0 (pos 0)) × (w' ≡ w)
unfolding init exit register_4keys
init-exit_older_shared env w = ground (arith, settle-with_all env w, unregister-all w)
