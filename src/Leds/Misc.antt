-- ===== src/Leds/Misc.antt =====
-- miscled/led.c: the LEDs through GPM4 as a misc device, with an entry under /proc.
pub mod Laws
use kernel_code.Prelude.{
  ℕ, ◌/◌, List, [], ◌∷◌, ◌++◌, ℤ, pos, not, get_or, ◌&&◌, ◌||◌, ◌==◌, ltb, if◌then◌else◌,
}
use kernel_code.Kernel.Errno.{Outcome, done, failed, code, is_done, einval, eio, enomem}
use kernel_code.Kernel.World.{
  Resource, resource, misc, mapping, proc_entry, World, acquire, release,
}
use kernel_code.Kernel.Device.{Env}
use kernel_code.Kernel.Memory.{UserAccess}
use kernel_code.Kbuf.Script.{Reply, reply}
use kernel_code.Leds.Register.{Gpm4, bit, led_on, led_off, ledonoff, ledstat, all_outputs, all_off}

module _ (user : UserAccess) where
  -- `ledstat` returns the number of bytes that were not copied, which is no negative number.
  unfoldable pub read : (room cnt : ℕ) → Gpm4 → Reply
  read room cnt r =
      let (left, out) = user.copy_out room (ledstat r) in
      if not (cnt == 4) then reply einval [] else reply (pos cnt) out

  unfoldable pub write : (src : List ℕ) (cnt : ℕ) → Gpm4 → ℤ × Gpm4
  write src cnt r =
      let (left, kbuf) = user.copy_in src cnt in
      let cmd = get_or kbuf 0 0 in
      let num = get_or kbuf 1 0 in
      if not (cnt == 2)
      then (einval, r)
      else if not (left == 0)
      then (eio, r)
      else if not (cmd == led_on) && not (cmd == led_off)
      then (einval, r)
      else if ltb num 1 || ltb 4 num
      then (einval, r)
      else (pos cnt, ledonoff cmd num r)

-- `led_proc_read`: for each LED whether the text says "off".
unfoldable pub led_proc_read : Gpm4 → List ℕ
led_proc_read r = says 0 ∷ says 1 ∷ says 2 ∷ says 3 ∷ []
  where
    says : ℕ → ℕ
    says i = if bit r.dat i == 0 then 0 else 1

-- The registers after `demo_init` has set them up: four outputs, all LEDs off.
unfoldable pub set_up : Gpm4 → Gpm4
set_up r = record { con = all_outputs r.con; dat = all_off r.dat }

-- Where the entry under /proc is refused, the registers are unmapped, and the function goes on.
unfoldable pub init : Env → World → Gpm4 → ℤ × World × Gpm4
unfolding set_up
init env w r = elim (env (resource mapping 0)) [
  | failed e ↦ (enomem, w, r)
  | done ↦
      let w₁ = acquire (resource mapping 0) w in
      let w₂ =
        if is_done (env (resource proc_entry 0))
        then acquire (resource proc_entry 0) w₁
        else release (resource mapping 0) w₁ in
      elim (env (resource misc 0)) [
        | failed e ↦ (code (failed e), w₂, set_up r)
        | done ↦ (pos 0, acquire (resource misc 0) w₂, set_up r)
      ]
]

unfoldable pub exit : World → Gpm4 → World × Gpm4
exit w r = (
  release (resource misc 0) (release (resource proc_entry 0) (release (resource mapping 0) w)),
  record r { dat = all_off r.dat },
)
