-- ===== src/Adc/Tests.antt =====
-- The reads of the resistance at concrete inputs.
use kernel_code.Prelude.{◌≡◌, refl, true, [], ◌∷◌, pos, negsuc}
use kernel_code.Kernel.Errno.{eio}
use kernel_code.Adc.{resis_read, result}
use kernel_code.Adc.Older.{res_read}

reads : resis_read (pos 700) true 4 ≡ result (pos 4) (700 ∷ [])
unfolding resis_read
reads = refl

times_out : res_read (negsuc 109) true 4 ≡ result eio []
unfolding res_read
times_out = refl
