-- ===== src/App/Buzzer.antt =====
-- buzzer/app/app.c: a program that sets the buzzer to a frequency or stops it, together with buzzer/buzzer.c.
mod Tests
use kernel_code.Prelude.{
  ℕ, zero, suc, ◌/◌, ◌<◌, Bool-cases, not_zero, ◌≤◌, ◌≡◌, refl, true, Option, none, some, inl, inr,
  ℤ, pos, negsuc, arith, ltb, is_negative, if◌then◌else◌,
}
use kernel_code.Buzzer.{Buzzer, nspersec, set_buzzer_hz, stop, buzzer_ioctl, set_pwm_hz}
use kernel_code.Buzzer.Laws.{IsValid, set_pwm_hz-IsValid}

-- How the program ends: a message and `exit(1)`, or 0.
pub data End : Type 0 where
  refused succeeded : End

abbrev pub after_ioctl : ℤ → End
after_ioctl ret = if is_negative ret then refused else succeeded

-- `main` with `sethz` and what `atoi` makes of its argument; `none` where the driver divides by zero.
unfoldable pub main_sethz : (hz : ℤ) → Buzzer → Option (End × Buzzer)
main_sethz (negsuc n) b = some (refused, b)
main_sethz (pos hz) b =
    if ltb 4000 hz then some (refused, b) else (elim (buzzer_ioctl set_buzzer_hz hz b) [
      | none ↦ none
      | some (ret, b') ↦ some (after_ioctl ret, b')
    ])

-- `main` with `stop`
unfoldable pub main_stop : Buzzer → Option (End × Buzzer)
main_stop b = elim (buzzer_ioctl stop 0 b) [
  | none ↦ none
  | some (ret, b') ↦ some (after_ioctl ret, b')
]

-- How a run with `sethz` and the number `hz` may end, on the buzzer `b`.
pub data Ends (b : Buzzer) : (hz : ℤ) → Option (End × Buzzer) → Type 0 where
  divided_by_zero : Ends b (pos 0) none
  below : {n : ℕ} → Ends b (negsuc n) (some (refused, b))
  above : {n : ℕ} → 4000 < n → Ends b (pos n) (some (refused, b))
  sounding :
      {n : ℕ} {b' : Buzzer}
      → 1 ≤ n
      → n ≤ 4000
      → IsValid b'
      → b'.enabled ≡ true
      → b'.period_ns ≡ nspersec / n
      → Ends b (pos n) (some (succeeded, b'))

-- Whatever number the program is given and whatever the buzzer does: a number below 0 or above 4000 is
-- refused and leaves the buzzer as it is, 0 makes the driver divide by zero, and with any other number
-- the program succeeds and the buzzer sounds at it, and is valid.
pub main_sethz-Ends : (hz : ℤ) (b : Buzzer) → Ends b hz (main_sethz hz b)
unfolding main_sethz buzzer_ioctl set_pwm_hz
main_sethz-Ends (negsuc n) b = below
main_sethz-Ends (pos zero) b = divided_by_zero
main_sethz-Ends (pos (suc n)) b = elim (Bool-cases (ltb 4000 (suc n))) [
  | inl high ↦ rw high (above (ground (arith, high)))
  | inr low ↦
      let le : suc n ≤ 4000 = ground (arith, low) in
      rw (low, not_zero (suc n) (omega arith))
        (sounding (omega arith) le (set_pwm_hz-IsValid (suc n) (ground arith) le) refl refl)
]
