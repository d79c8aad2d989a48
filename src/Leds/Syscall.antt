-- ===== src/Leds/Syscall.antt =====
-- ledsyscall.c: the LEDs through GPM4 as a system call.
pub mod Laws
use kernel_code.Prelude.{
  ℕ, Bool, true, false, not, ◌&&◌, ◌||◌, List, [], ◌∷◌, ℤ, pos, negsuc, ◌==◌, ltb, if◌then◌else◌,
}
use kernel_code.Kernel.Errno.{done, failed, einval, enomem}
use kernel_code.Kernel.World.{resource, mapping, World, acquire}
use kernel_code.Kernel.Device.{Env}
use kernel_code.Kernel.Memory.{UserAccess}
use kernel_code.Kbuf.Script.{Reply, reply}
use kernel_code.Leds.Register.{Gpm4, led_on, led_off}
use kernel_code.Leds.Register

abbrev pub led_stat : ℕ
led_stat = 3

unfoldable pub ledonoff : (cmd num : ℕ) → Gpm4 → Gpm4
ledonoff cmd num r = Register.ledonoff cmd num r

-- What is copied to the process, and the number of bytes that were not.
unfoldable pub ledstat : UserAccess → (room : ℕ) → Gpm4 → ℕ × List ℕ
ledstat user room r = user.copy_out room (Register.ledstat r)

-- `room` is how many bytes the process can write at the address `arg`, where this is an address.
unfoldable pub ledctl : UserAccess → (cmd arg : ℤ) (room : ℕ) → Gpm4 → Reply × Gpm4
ledctl user (negsuc c) arg room r = (reply einval [], r)
ledctl user (pos cmd) arg room r =
    let (left, out) = ledstat user room r in
    if not (cmd == led_on) && not (cmd == led_off) && not (cmd == led_stat)
    then (reply einval [], r)
    else if not (cmd == led_stat)
    then (elim arg [
      | negsuc n ↦ (reply einval [], r)
      | pos num ↦
          if ltb num 1 || ltb 4 num
          then (reply einval [], r)
          else (reply (pos 0) [], ledonoff cmd num r)
    ])
    else (reply (pos left) out, r)

unfoldable pub init : Env → World → Gpm4 → ℤ × World × Gpm4
init env w r = elim (env (resource mapping 0)) [
  | failed e ↦ (enomem, w, r)
  | done ↦ (
    pos 0,
    acquire (resource mapping 0) w,
    record { con = Register.all_outputs r.con; dat = Register.all_off r.dat },
  )
]
