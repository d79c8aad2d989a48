-- ===== src/Adc.antt =====
-- adc/resistant.c: a resistance that a process reads through the ADC.
pub mod Older
pub mod Laws
mod Tests
use kernel_code.Prelude.{
  ℕ, Bool, true, false, not, List, [], ◌∷◌, ℤ, pos, negsuc, ◌==◌, if◌then◌else◌,
}
use kernel_code.Kernel.Errno.{done, failed, code, einval, eio}
use kernel_code.Kernel.World.{resource, misc, adc_client, World, acquire, release}
use kernel_code.Kernel.Device.{Env}

-- What a read returns, and the number that it stored at the address of the process, if it did.
pub record Result : Type 0 where
  pub ret : ℤ
  pub stored : List ℕ

abbrev pub result : ℤ → List ℕ → Result
result r xs = record { ret = r; stored = xs }

-- `adc` is what `s3c_adc_read` returns, `writable` whether `put_user` can store it.
unfoldable pub resis_read : (adc : ℤ) (writable : Bool) (cnt : ℕ) → Result
resis_read adc writable cnt = if not (cnt == 4) then result einval [] else (elim adc [
  | negsuc e ↦ result (negsuc e) []
  | pos n ↦ if writable then result (pos 4) (n ∷ []) else result eio []
])

unfoldable pub resistance_probe : Env → World → ℤ × World
resistance_probe env w = elim (env (resource adc_client 0)) [
  | failed e ↦ (code (failed e), w)
  | done ↦
      let w₁ = acquire (resource adc_client 0) w in
      elim (env (resource misc 0)) [
        | failed e ↦ (code (failed e), release (resource adc_client 0) w₁)
        | done ↦ (pos 0, acquire (resource misc 0) w₁)
      ]
]

unfoldable pub resistance_remove : World → World
resistance_remove w = release (resource misc 0) (release (resource adc_client 0) w)
