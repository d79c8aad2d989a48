-- ===== src/Adc/Older.antt =====
-- kernel_code_v1/reslocator/reslocator.c: as adc/resistant.c, with other errors.
use kernel_code.Prelude.{ℕ, Bool, not, [], ◌∷◌, ℤ, pos, negsuc, ◌==◌, if◌then◌else◌}
use kernel_code.Kernel.Errno.{einval, eio}
use kernel_code.Kernel.World.{World}
use kernel_code.Kernel.Device.{Env}
use kernel_code.Adc
use kernel_code.Adc.{Result, result}

unfoldable pub res_read : (adc : ℤ) (writable : Bool) (cnt : ℕ) → Result
res_read adc writable cnt = if not (cnt == 4) then result einval [] else (elim adc [
  | negsuc e ↦ result eio []
  | pos n ↦ if writable then result (pos cnt) (n ∷ []) else result einval []
])

unfoldable pub res_probe : Env → World → ℤ × World
res_probe env w = Adc.resistance_probe env w

unfoldable pub res_remove : World → World
res_remove w = Adc.resistance_remove w
