-- ===== src/Leds/Gpio.antt =====
-- gpio_led/led.c: the LEDs through the GPIO interface of the kernel.
pub mod Laws
use kernel_code.Prelude.{
  ℕ, zero, suc, ◌-◌, List, [], ◌∷◌, ℤ, pos, negsuc, not, get_or, ◌&&◌, ◌||◌, ◌==◌, ltb,
  if◌then◌else◌,
}
use kernel_code.Kernel.Errno.{done, failed, einval, eio}
use kernel_code.Kernel.World.{resource, gpio, gpio_output, misc, World, acquire, release}
use kernel_code.Kernel.Device.{Env}
use kernel_code.Kernel.Memory.{UserAccess}
use kernel_code.Kernel.Unwind.{unwind}
use kernel_code.Kbuf.Script.{Reply, reply}

-- The level of each pin of `leds`.
abbrev pub Pins : Type 0
Pins = ℕ → ℕ

abbrev pub led_on : ℕ
led_on = 0

abbrev pub led_off : ℕ
led_off = 1

abbrev pub array_size_leds : ℕ
array_size_leds = 4

-- `gpio_set_value(leds[num], v)`
abbrev pub set_value : ℕ → ℕ → Pins → Pins
set_value num v p i = if num == i then v else p i

unfoldable pub ledonoff : (cmd num : ℕ) → Pins → Pins
ledonoff cmd num p = set_value (num - 1) cmd p

unfoldable pub ledstat : Pins → List ℕ
ledstat p = p 0 ∷ p 1 ∷ p 2 ∷ p 3 ∷ []

module _ (user : UserAccess) where
  -- `ledstat` returns the number of bytes that were not copied, which is no negative number.
  unfoldable pub read : (room cnt : ℕ) → Pins → Reply
  read room cnt p =
      let (left, out) = user.copy_out room (ledstat p) in
      if not (cnt == 4) then reply einval [] else reply (pos cnt) out

  unfoldable pub write : (src : List ℕ) (cnt : ℕ) → Pins → ℤ × Pins
  write src cnt p =
      let (left, kbuf) = user.copy_in src cnt in
      let cmd = get_or kbuf 0 0 in
      let num = get_or kbuf 1 0 in
      if not (cnt == 2)
      then (einval, p)
      else if not (left == 0)
      then (eio, p)
      else if not (cmd == led_on) && not (cmd == led_off)
      then (einval, p)
      else if ltb num 1 || ltb 4 num
      then (einval, p)
      else (pos cnt, ledonoff cmd num p)

-- The loop of `demo_init`: all pins are requested and set up, or the jump is taken at `i`.
pub data Request : Type 0 where
  all_set : World → Pins → Request
  jumped : (i : ℕ) (ret : ℤ) → World → Pins → Request

-- `rounds` more rounds from `i` on. Where `gpio_direction_output` fails, pin `i` is already requested.
unfoldable pub request_all : Env → (rounds i : ℕ) → World → Pins → Request
request_all env zero i w p = all_set w p
request_all env (suc k) i w p = elim (env (resource gpio i)) [
  | failed e ↦ jumped i (negsuc e) w p
  | done ↦ elim (env (resource gpio_output i)) [
    | failed e ↦ jumped i (negsuc e) (acquire (resource gpio i) w) p
    | done ↦ request_all env k (suc i) (acquire (resource gpio i) w) (set_value i led_off p)
  ]
]

-- `gpio_free(leds[i])`
abbrev pub free_pin : ℕ → World → World
free_pin i w = release (resource gpio i) w

unfoldable pub init : Env → World → Pins → ℤ × World × Pins
init env w p = elim (request_all env array_size_leds 0 w p) [
  | jumped i ret w' p' ↦ (ret, unwind free_pin i w', p')
  | all_set w' p' ↦ elim (env (resource misc 0)) [
    | failed e ↦ (negsuc e, w', p')
    | done ↦ (pos 0, acquire (resource misc 0) w', p')
  ]
]

-- `while (i--)`: put the LED off and free its pin.
unfoldable pub leave : ℕ → World → Pins → World × Pins
leave zero w p = (w, p)
leave (suc i) w p = leave i (free_pin i w) (set_value i led_off p)

unfoldable pub exit : World → Pins → World × Pins
exit w p = let (w', p') = leave 4 w p in (release (resource misc 0) w', p')
