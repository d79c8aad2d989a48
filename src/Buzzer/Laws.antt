-- ===== src/Buzzer/Laws.antt =====
-- The tones that the buzzer can be set to, and the resources of the driver.
use kernel_code.Prelude.{
  ℕ, ◌/◌, ◌<◌, ◌≤◌, ◌≡◌, ◌≢◌, refl, ◌∙◌, ◌||◌, Bool, true, false, ◌&&◌, Option, none, some, List,
  [], ◌∷◌, ℤ, pos, arith, ◌==◌, ltb, if◌then◌else◌, Bool-cases, inl, inr,
}
use native.Mathlib.Nat.{le-div_iff_mul-le, div-le_self}
use kernel_code.Kernel.Errno.{code, is_done, ebusy}
use kernel_code.Kernel.World.{resource, gpio, pwm, misc, World, World-eq, acquire, release-acquire}
use kernel_code.Kernel.Device.{Env}
use kernel_code.Buzzer.{
  nspersec, set_buzzer_hz, stop, Buzzer, set_pwm_hz, stop_buzzer, buzzer_ioctl, run, buzzer_probe,
  buzzer_remove,
}

-- A buzzer that sounds has its pin at the PWM and a tone of at most 4000 Hz; the times fit in an
-- `int`, and the PWM is high for half of the period.
pub record IsValid (b : Buzzer) : Type 0 where
  pub sounds : b.enabled ≡ true → (b.pwm_pin ≡ true) × (250000 ≤ b.period_ns)
  pub fits : b.period_ns ≤ nspersec
  pub half : b.duty_ns ≡ b.period_ns / 2

-- The period of every frequency from 1 to 4000 Hz.
period_bounds :
    (hz : ℕ) → hz ≢ 0 → hz ≤ 4000 → (250000 ≤ nspersec / hz) × (nspersec / hz ≤ nspersec)
period_bounds hz ne le =
    let some_hz : 0 < hz = omega arith in
    ((le-div_iff_mul-le some_hz).1 (omega arith), div-le_self nspersec hz)

-- Whether some call asks for 0 Hz.
abbrev asks_zero : (request arg : ℕ) → Bool
asks_zero request arg = (request == set_buzzer_hz) && (arg == 0)

-- The result is there, and the buzzer is valid.
pub data Holds {R : Type 0} : Option (R × Buzzer) → Type 0 where
  holds : {r : R} {b : Buzzer} → IsValid b → Holds (some (r, b))

pub set_pwm_hz-IsValid :
    (hz : ℕ)
    → hz ≢ 0
    → hz ≤ 4000
    → IsValid (record {
      duty_ns = nspersec / hz / 2;
      period_ns = nspersec / hz;
      enabled = true;
      pwm_pin = true;
    })
set_pwm_hz-IsValid hz ne le =
    let (lo, hi) = period_bounds hz ne le in
    record { sounds = λ h. (refl, lo); fits = hi; half = refl }

ioctl-IsValid :
    (request arg : ℕ) (b : Buzzer)
    → IsValid b
    → asks_zero request arg ≡ false
    → Holds (buzzer_ioctl request arg b)
unfolding buzzer_ioctl set_pwm_hz stop_buzzer
ioctl-IsValid request arg b v nz = elim (Bool-cases (request == set_buzzer_hz)) [
  | inr other ↦ elim (Bool-cases (request == stop)) [
    | inl stops ↦
        rw (other, stops) (holds (record { sounds = λ h. cc; fits = v.fits; half = v.half }))
    | inr none_known ↦ rw (other, none_known) (holds v)
  ]
  | inl sets ↦ elim (Bool-cases (ltb 4000 arg)) [
    | inl high ↦ rw (sets, high) (holds v)
    | inr low ↦
        let ne : (arg == 0) ≡ false = ground arith in
        rw (sets, low, ne) (holds (set_pwm_hz-IsValid arg (ground arith) (ground arith)))
  ]
]

-- Whether some call of a script asks for 0 Hz.
unfoldable pub any_zero : List (ℕ × ℕ) → Bool
any_zero [] = false
any_zero ((request, arg) ∷ rest) = asks_zero request arg || any_zero rest

run-Holds :
    (request arg : ℕ) (rest : List (ℕ × ℕ)) (b : Buzzer) {o : Option (ℤ × Buzzer)}
    → buzzer_ioctl request arg b ≡ o
    → Holds o
    → (b' : Buzzer) × IsValid b' × (run ((request, arg) ∷ rest) b ≡ run rest b')
unfolding run
run-Holds request arg rest b e (holds {r} {b = b'} v) = (b', v, rw (e, run) refl)

-- As long as no call asks for 0 Hz, every script of calls on a valid buzzer runs to its end, and
-- the buzzer it leaves sounds, if it is on, with at most 4000 Hz, a period that fits in an `int`
-- and half of it high.
pub run-IsValid :
    (calls : List (ℕ × ℕ)) (b : Buzzer)
    → IsValid b
    → any_zero calls ≡ false
    → (b' : Buzzer) × (run calls b ≡ some b') × IsValid b'
unfolding run any_zero
run-IsValid [] b v nz = (b, refl, v)
run-IsValid ((request, arg) ∷ rest) b v nz =
    let now : asks_zero request arg ≡ false = ground arith in
    let later : any_zero rest ≡ false = ground arith in
    let (b', v', e) = run-Holds request arg rest b refl (ioctl-IsValid request arg b v now) in
    let (b'', e', v'') = run-IsValid rest b' v' later in (b'', e ∙ e', v'')

run-none :
    (request arg : ℕ) (rest : List (ℕ × ℕ)) (b : Buzzer) (o : Option (ℤ × Buzzer))
    → buzzer_ioctl request arg b ≡ o
    → ((b' : Buzzer) → run rest b' ≡ none)
    → run ((request, arg) ∷ rest) b ≡ none
unfolding run
run-none request arg rest b none e later = rw (e, run) refl
run-none request arg rest b (some (r, b')) e later = rw (e, run) (later b')

-- A script with a call that asks for 0 Hz divides by zero, whatever the buzzer is set to.
pub zero_hz_divides :
    (calls : List (ℕ × ℕ)) (b : Buzzer) → any_zero calls ≡ true → run calls b ≡ none
unfolding run any_zero buzzer_ioctl set_pwm_hz
zero_hz_divides [] b z = cc
zero_hz_divides ((request, arg) ∷ rest) b z = elim (Bool-cases (asks_zero request arg)) [
  | inl now ↦
      let sets : (request == set_buzzer_hz) ≡ true = ground arith in
      let zero_hz : arg ≡ 0 = ground arith in
      let divides : buzzer_ioctl request arg b ≡ none = ground arith in rw (divides, run) refl
  | inr not_now ↦
      let later : any_zero rest ≡ true = ground arith in
      run-none request arg rest b (buzzer_ioctl request arg b) refl
        (λ b'. zero_hz_divides rest b' later)
]

loaded : World → World
loaded w = acquire (resource misc 0) (acquire (resource pwm 0) (acquire (resource gpio 0) w))

abbrev pub granted : Env → Bool
granted env =
    is_done (env (resource gpio 0))
    && is_done (env (resource pwm 0))
    && is_done (env (resource misc 0))

last_first :
    (w : World)
    → loaded w ≡ acquire (resource pwm 0) (acquire (resource gpio 0) (acquire (resource misc 0) w))
unfolding acquire loaded
last_first w = World-eq (λ r. omega arith) refl

remove-loaded : (w : World) (b : Buzzer) → (buzzer_remove (loaded w) b).0 ≡ w
unfolding buzzer_remove
remove-loaded w b = rw last_first (simp release-acquire)

silent : (w : World) (b : Buzzer) → (buzzer_remove w b).1.enabled ≡ false
unfolding buzzer_remove stop_buzzer
silent w b = refl

-- `buzzer_probe` returns 0, and `buzzer_remove` then gives back what it took, with the buzzer silent; or
-- it returns -EBUSY for the pin, or the error of the PWM or of the misc device, and holds nothing
-- more than before.
pub probe_remove_lem :
    (env : Env) (w : World) (b : Buzzer)
    → let (ret, w') = buzzer_probe env w in
      let (w'', b') = buzzer_remove w' b in
      if granted env
      then (ret ≡ pos 0) × (w'' ≡ w) × (b'.enabled ≡ false)
      else (ret ≡ (
          if is_done (env (resource gpio 0))
          then if is_done (env (resource pwm 0))
            then code (env (resource misc 0))
            else code (env (resource pwm 0))
          else ebusy))
        × (w' ≡ w)
unfolding buzzer_probe loaded
probe_remove_lem env w b = ground (
  arith,
  release-acquire (resource gpio 0) w,
  release-acquire (resource pwm 0) (acquire (resource gpio 0) w),
  remove-loaded w b,
  silent (loaded w) b,
)
