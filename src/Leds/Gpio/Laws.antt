-- ===== src/Leds/Gpio/Laws.antt =====
-- What a process sees of the LEDs behind the GPIO interface, and which pins the driver holds.
use kernel_code.Prelude.{
  ℕ, zero, suc, ◌+◌, ◌-◌, ◌≤◌, ◌≡◌, ◌⊎◌, refl, ap, ◌∙◌, [], ◌∷◌, ℤ, pos, negsuc, set, arith,
}
use kernel_code.Kernel.Errno.{done, failed}
use kernel_code.Kernel.World.{
  resource, gpio, gpio_output, misc, World, acquire, release, release-acquire, acquire_comm,
  Resource,
}
use kernel_code.Kernel.Device.{Env}
use kernel_code.Kernel.Memory.{UserAccess}
use kernel_code.Kernel.Unwind.{unwind}
use kernel_code.Kbuf.Script.{reply}
use kernel_code.Leds.Gpio.{
  Pins, led_on, led_off, set_value, ledonoff, ledstat, read, write, Request, all_set, jumped,
  request_all, array_size_leds, free_pin, init, leave, exit,
}

ledstat-ledonoff :
    (cmd num : ℕ) (p : Pins)
    → 1 ≤ num
    → num ≤ 4
    → ledstat (ledonoff cmd num p) ≡ set (ledstat p) (num - 1) cmd
unfolding ledstat ledonoff
ledstat-ledonoff cmd zero p lo hi = absurd (omega arith)
ledstat-ledonoff cmd (suc zero) p lo hi = refl
ledstat-ledonoff cmd (suc (suc zero)) p lo hi = refl
ledstat-ledonoff cmd (suc (suc (suc zero))) p lo hi = refl
ledstat-ledonoff cmd (suc (suc (suc (suc zero)))) p lo hi = refl
ledstat-ledonoff cmd (suc (suc (suc (suc (suc n))))) p lo hi = absurd (omega arith)

module _ (user : UserAccess) (p : Pins) where
  -- A command 0 or 1 for LED `num` from 1 to 4 that can be copied returns 2; a read of the states that
  -- can be copied then finds the one of that LED changed, and the others as before.
  pub read-write_pins :
      (cmd num room : ℕ)
      → (cmd ≡ led_on) ⊎ (cmd ≡ led_off)
      → 1 ≤ num
      → num ≤ 4
      → (user.copy_in (cmd ∷ num ∷ []) 2).0 ≡ 0
      → (user.copy_out room (set (ledstat p) (num - 1) cmd)).0 ≡ 0
      → let (ret, p') = write user (cmd ∷ num ∷ []) 2 p in
        (ret ≡ pos 2) × (read user room 4 p' ≡ reply (pos 4) (set (ledstat p) (num - 1) cmd))
  unfolding read write
  read-write_pins cmd num room c lo hi ok ok' =
      let copied = user.in_all (cmd ∷ num ∷ []) 2 ok in
      ground (
        arith,
        copied,
        ledstat-ledonoff cmd num p lo hi,
        user.out_all room (set (ledstat p) (num - 1) cmd),
      )

-- The world when the pins before `i` are requested.
unfoldable pub requested : ℕ → World → World
requested zero w = w
requested (suc i) w = acquire (resource gpio i) (requested i w)

unwind-requested : (i : ℕ) (w : World) → unwind free_pin i (requested i w) ≡ w
unfolding unwind requested
unwind-requested zero w = refl
unwind-requested (suc i) w =
    rw (release-acquire (resource gpio i) (requested i w)) (unwind-requested i w)

acquire-requested :
    (a : Resource) (i : ℕ) (w : World) → acquire a (requested i w) ≡ requested i (acquire a w)
unfolding requested
acquire-requested a zero w = refl
acquire-requested a (suc i) w =
    acquire_comm a (resource gpio i) (requested i w)
    ∙ ap (acquire (resource gpio i)) (acquire-requested a i w)

unwind-acquire :
    (a : Resource) (i : ℕ) (w : World) → unwind free_pin i (acquire a (requested i w)) ≡ acquire a w
unwind-acquire a i w = rw (acquire-requested a i w) (unwind-requested i (acquire a w))

-- What the loop and its jump come to: all pins are set up, or the function ends with an error.
pub data Ending : Type 0 where
  goes_on : World → Ending
  ends : ℤ → World → Ending

-- The first refusal decides. Where it is the direction of a pin that is refused, this pin stays
-- requested.
unfoldable pub ending : Env → (rounds i : ℕ) → World → Ending
ending env zero i w = goes_on (requested i w)
ending env (suc k) i w = elim (env (resource gpio i)) [
  | failed e ↦ ends (negsuc e) w
  | done ↦ elim (env (resource gpio_output i)) [
    | failed e ↦ ends (negsuc e) (acquire (resource gpio i) w)
    | done ↦ ending env k (suc i) w
  ]
]

abbrev after_jump : Request → Ending
after_jump (all_set w p) = goes_on w
after_jump (jumped i ret w p) = ends ret (unwind free_pin i w)

request_all-ending :
    (env : Env) (k i : ℕ) (w : World) (p : Pins)
    → after_jump (request_all env k i (requested i w) p) ≡ ending env k i w
unfolding request_all ending requested
request_all-ending env zero i w p = refl
request_all-ending env (suc k) i w p = ground (
  arith,
  unwind-requested i w,
  unwind-acquire (resource gpio i) i w,
  request_all-ending env k (suc i) w (set_value i led_off p),
)

four_pins :
    (env : Env) (w : World) (p : Pins)
    → after_jump (request_all env array_size_leds 0 w p) ≡ ending env array_size_leds 0 w
unfolding requested
four_pins env w p = request_all-ending env array_size_leds 0 w p

-- `demo_init` returns the first error of the four pins, and of them holds at most the one whose
-- direction was refused; with all pins set up it asks for the misc device, and returns 0, or the
-- error with all four pins still requested.
pub init_gpio_lem :
    (env : Env) (w : World) (p : Pins)
    → let (ret, w', p') = init env w p in
      ◌≡◌ {A = ℤ × World}
        (ret, w')
        (elim (ending env array_size_leds 0 w) [
          | ends err v ↦ (err, v)
          | goes_on v ↦ elim (env (resource misc 0)) [
            | failed e ↦ (negsuc e, v)
            | done ↦ (pos 0, acquire (resource misc 0) v)
          ]
        ])
unfolding init
init_gpio_lem env w p = ground (arith, four_pins env w p)

ending-goes_on :
    (env : Env) (k i : ℕ) (w : World)
    → ((j : ℕ) → env (resource gpio j) ≡ done)
    → ((j : ℕ) → env (resource gpio_output j) ≡ done)
    → ending env k i w ≡ goes_on (requested (i + k) w)
unfolding ending
ending-goes_on env zero i w g o =
    let e : i ≡ i + 0 = omega arith in ap (λ j. goes_on (requested j w)) e
ending-goes_on env (suc k) i w g o =
    let e : i + suc k ≡ suc i + k = omega arith in
    ground (arith, ending-goes_on env k (suc i) w g o, g i, o i, ap (λ j. requested j w) e)

leave-world : (i : ℕ) (w : World) (p : Pins) → (leave i w p).0 ≡ unwind free_pin i w
unfolding leave unwind
leave-world zero w p = refl
leave-world (suc i) w p = leave-world i (free_pin i w) (set_value i led_off p)

leave-off : (w : World) (p : Pins) → ledstat (leave 4 w p).1 ≡ 1 ∷ 1 ∷ 1 ∷ 1 ∷ []
unfolding leave ledstat
leave-off w p = refl

-- With every request granted, `demo_init` returns 0; `demo_exit` then gives back all that was taken, and
-- leaves the four LEDs off.
pub exit-init_pins :
    (env : Env) (w : World) (p p'' : Pins)
    → ((j : ℕ) → env (resource gpio j) ≡ done)
    → ((j : ℕ) → env (resource gpio_output j) ≡ done)
    → env (resource misc 0) ≡ done
    → let (ret, w', p') = init env w p in
      let (w'', q) = exit w' p'' in
      (ret ≡ pos 0) × (w'' ≡ w) × (ledstat q ≡ led_off ∷ led_off ∷ led_off ∷ led_off ∷ [])
unfolding exit
exit-init_pins env w p p'' g o m =
    let loaded = acquire (resource misc 0) (requested 4 w) in
    let shown : ◌≡◌ {A = ℤ × World} (let (ret, w', p') = init env w p in (ret, w'))
        (pos 0, loaded) =
      ground (arith, init_gpio_lem env w p, ending-goes_on env 4 0 w g o) in
    let back : release (resource misc 0) (leave 4 loaded p'').0 ≡ w =
      rw (leave-world 4 loaded p'', unwind-acquire (resource misc 0) 4 w)
        (release-acquire (resource misc 0) w) in
    (ap (λ r. r.0) shown, ap (λ r. (exit r.1 p'').0) shown ∙ back, leave-off (init env w p).1 p'')
