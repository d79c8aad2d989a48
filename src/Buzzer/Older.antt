-- ===== src/Buzzer/Older.antt =====
-- kernel_code_v1/beep/beep.c: the older driver of the buzzer, which one process at a time may open.
pub mod Laws
use kernel_code.Prelude.{ℕ, Option, none, some, ℤ, pos, ◌==◌, ltb, if◌then◌else◌}
use kernel_code.Kernel.Errno.{done, failed, code, einval, ebusy}
use kernel_code.Kernel.World.{resource, gpio, pwm, misc, World, acquire, release}
use kernel_code.Kernel.Device.{Env}
use kernel_code.Kernel.Lock.{Lock}
use kernel_code.Buzzer.{Buzzer, set_buzzer_hz, set_pwm_hz, stop_buzzer}

-- `BEEP_SET_HZ` has the value of `SET_BUZZER_HZ`, and any other request mutes.
unfoldable pub beep_unlocked_ioctl : (request arg : ℕ) → Buzzer → Option (ℤ × Buzzer)
beep_unlocked_ioctl request arg b =
    if request == set_buzzer_hz
    then if ltb 4000 arg
      then some (einval, b)
      else (elim (set_pwm_hz arg b) [ none ↦ none | some b' ↦ some (pos 0, b') ])
    else some (pos 0, stop_buzzer b)

-- `mutex_trylock`, `mutex_unlock`
module _ (lock : Lock) where
  unfoldable pub beep_open : lock.State → ℤ × lock.State
  beep_open l = elim (lock.try l) [ none ↦ (ebusy, l) | some l' ↦ (pos 0, l') ]

  unfoldable pub beep_release : lock.State → lock.State
  beep_release l = lock.leave l

-- A `gpio_request` that fails is reported as -EINVAL. `error1` and `error0` stand in place of their jumps.
unfoldable pub beep_probe : Env → World → ℤ × World
beep_probe env w = elim (env (resource gpio 0)) [
  | failed e ↦ (einval, w)
  | done ↦
      let w₁ = acquire (resource gpio 0) w in
      elim (env (resource pwm 0)) [
        | failed e ↦ (code (failed e), release (resource gpio 0) w₁)
        | done ↦
            let w₂ = acquire (resource pwm 0) w₁ in
            elim (env (resource misc 0)) [
              | failed e ↦
                  (code (failed e), release (resource gpio 0) (release (resource pwm 0) w₂))
              | done ↦ (pos 0, acquire (resource misc 0) w₂)
            ]
      ]
]

unfoldable pub beep_remove : World → Buzzer → World × Buzzer
beep_remove w b = (
  release (resource misc 0) (release (resource gpio 0) (release (resource pwm 0) w)),
  stop_buzzer b,
)
