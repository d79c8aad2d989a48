-- ===== src/Buzzer.antt =====
-- buzzer/buzzer.c: a buzzer on a PWM output, set through `ioctl`.
pub mod Laws
pub mod Older
mod Tests
use kernel_code.Prelude.{
  ℕ, ◌+◌, ◌*◌, ◌/◌, ◌^◌, Bool, true, false, Option, none, some, List, [], ◌∷◌, ℤ, pos, ◌==◌, ltb,
  if◌then◌else◌,
}
use kernel_code.Kernel.Errno.{done, failed, code, einval, ebusy}
use kernel_code.Kernel.World.{resource, gpio, pwm, misc, World, acquire, release}
use kernel_code.Kernel.Device.{Env}

abbrev pub nspersec : ℕ
nspersec = 1000000000

-- `_IOW('B', 0, int)` and `_IO('B', 1)`
abbrev pub set_buzzer_hz : ℕ
set_buzzer_hz = 2 ^ 30 + 4 * 2 ^ 16 + b'B' * 2 ^ 8

abbrev pub stop : ℕ
stop = b'B' * 2 ^ 8 + 1

-- What was last asked of the PWM (`pwm_config`, `pwm_enable`), and whether the pin is its output.
pub record Buzzer : Type 0 where
  pub duty_ns : ℕ
  pub period_ns : ℕ
  pub enabled : Bool
  pub pwm_pin : Bool

-- `none` is the division by zero. The quotient fits in an `int`.
unfoldable pub set_pwm_hz : (hz : ℕ) → Buzzer → Option Buzzer
set_pwm_hz hz b =
    let period = nspersec / hz in
    if hz == 0
    then none
    else some (record { duty_ns = period / 2; period_ns = period; enabled = true; pwm_pin = true })

-- `pwm_disable`, and `gpio_direction_output` to 0
unfoldable pub stop_buzzer : Buzzer → Buzzer
stop_buzzer b = record b { enabled = false; pwm_pin = false }

unfoldable pub buzzer_ioctl : (request arg : ℕ) → Buzzer → Option (ℤ × Buzzer)
buzzer_ioctl request arg b =
    if request == set_buzzer_hz
    then if ltb 4000 arg
      then some (einval, b)
      else (elim (set_pwm_hz arg b) [ none ↦ none | some b' ↦ some (pos 0, b') ])
    else if request == stop
    then some (pos 0, stop_buzzer b)
    else some (pos 0, b)

-- The calls that processes make, one after another.
unfoldable pub run : List (ℕ × ℕ) → Buzzer → Option Buzzer
run [] b = some b
run ((request, arg) ∷ rest) b = elim (buzzer_ioctl request arg b) [
  | none ↦ none
  | some (r, b') ↦ run rest b'
]

-- A `gpio_request` that fails is reported as -EBUSY.
unfoldable pub buzzer_probe : Env → World → ℤ × World
buzzer_probe env w = elim (env (resource gpio 0)) [
  | failed e ↦ (ebusy, w)
  | done ↦
      let w₁ = acquire (resource gpio 0) w in
      elim (env (resource pwm 0)) [
        | failed e ↦ (code (failed e), release (resource gpio 0) w₁)
        | done ↦
            let w₂ = acquire (resource pwm 0) w₁ in
            elim (env (resource misc 0)) [
              | failed e ↦
                  (code (failed e), release (resource gpio 0) (release (resource pwm 0) w₂))
              | done ↦ (pos 0, acquire (resource misc 0) w₂)
            ]
      ]
]

unfoldable pub buzzer_remove : World → Buzzer → World × Buzzer
buzzer_remove w b = (
  release (resource misc 0) (release (resource gpio 0) (release (resource pwm 0) w)),
  stop_buzzer b,
)
