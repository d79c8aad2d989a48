-- ===== src/App/Keys/Tests.antt =====
-- A press of key 3 as the program shows it.
use kernel_code.Prelude.{◌≡◌, refl, true, some, [], ◌∷◌, arith}
use kernel_code.Kernel.Memory.Simple.{mapped}
use kernel_code.Irq.Keys.{start}
use kernel_code.Irq.Keys.Debounce.{interrupts, quiet, here}
use kernel_code.App.Keys.{round, one_line_per_press}

one_line_per_press_example :
    (round mapped (λ v. quiet (interrupts (0 ∷ 2 ∷ []) v)) (0 ∷ 0 ∷ 0 ∷ 0 ∷ []) start).0
    ≡ some ((3, true) ∷ [], 0 ∷ 0 ∷ 1 ∷ 0 ∷ [])
one_line_per_press_example = one_line_per_press mapped (0 ∷ []) 2 here (omega arith) refl
