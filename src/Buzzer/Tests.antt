-- ===== src/Buzzer/Tests.antt =====
-- The buzzer at concrete inputs.
use kernel_code.Prelude.{ℕ, ◌≡◌, refl, false, some, List, [], ◌∷◌, arith, if◌then◌else◌}
use kernel_code.Kernel.Errno.{done, failed}
use kernel_code.Kernel.World.{resource, pwm, same}
use kernel_code.Kernel.Device.{Env}
use kernel_code.Buzzer.{Buzzer, set_buzzer_hz, stop, run}
use kernel_code.Kernel.Lock.Simple.{mutex}
use kernel_code.Buzzer.Older.Laws
use kernel_code.Buzzer.Older.Laws.{beep_open_lem}
use kernel_code.Buzzer.Laws.{IsValid, any_zero, run-IsValid}

abbrev silent : Buzzer
silent = record { duty_ns = 0; period_ns = 0; enabled = false; pwm_pin = false }

silent-IsValid : IsValid silent
silent-IsValid = record { sounds = λ h. cc; fits = omega arith; half = refl }

abbrev calls : List (ℕ × ℕ)
calls = (set_buzzer_hz, 440) ∷ (set_buzzer_hz, 5000) ∷ (stop, 0) ∷ []

run-IsValid_example : (b' : Buzzer) × (run calls silent ≡ some b') × IsValid b'
unfolding any_zero
run-IsValid_example = run-IsValid calls silent silent-IsValid refl

abbrev no_pwm : Env
no_pwm r = if same r (resource pwm 0) then failed 15 else done

-- One process has opened the buzzer.
abbrev one_open : Laws.Opened mutex
one_open = Laws.open_beep mutex (Laws.closed mutex)
