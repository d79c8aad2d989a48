-- ===== src/Leds/Char.antt =====
-- ledchar/led.c: the LEDs through GPM4 as a character device with the fixed major number 100. Reads and
-- writes are those of miscled/led.c.
pub mod Setup
use kernel_code.Prelude.{ℕ, List, ℤ, pos, negsuc}
use kernel_code.Kernel.Errno.{done, failed, enomem}
use kernel_code.Kernel.World.{resource, chrdev_region, mapping, World, acquire, release}
use kernel_code.Kernel.Device.{Env}
use kernel_code.Kernel.Memory.{UserAccess}
use kernel_code.Kbuf.Script.{Reply}
use kernel_code.Leds.Register.{Gpm4, all_off}
use kernel_code.Leds.Misc

unfoldable pub read : UserAccess → (room cnt : ℕ) → Gpm4 → Reply
read user room cnt r = Misc.read user room cnt r

unfoldable pub write : UserAccess → (src : List ℕ) (cnt : ℕ) → Gpm4 → ℤ × Gpm4
write user src cnt r = Misc.write user src cnt r

-- `register_chrdev` of a major number other than 0 returns 0 or an error.
unfoldable pub init : Env → World → Gpm4 → ℤ × World × Gpm4
init env w r = elim (env (resource mapping 0)) [
  | failed e ↦ (enomem, w, r)
  | done ↦
      let w₁ = acquire (resource mapping 0) w in
      elim (env (resource chrdev_region 0)) [
        | failed e ↦ (negsuc e, w₁, Misc.set_up r)
        | done ↦ (pos 0, acquire (resource chrdev_region 0) w₁, Misc.set_up r)
      ]
]

unfoldable pub exit : World → Gpm4 → World × Gpm4
exit w r = (
  release (resource chrdev_region 0) (release (resource mapping 0) w),
  record r { dat = all_off r.dat },
)
