-- ===== src/Leds/Char/Setup.antt =====
-- What the initialisation of the character device takes and what it leaves.
use kernel_code.Prelude.{◌≡◌, pos, arith, if◌then◌else◌}
use kernel_code.Kernel.Errno.{code, is_done, enomem}
use kernel_code.Kernel.World.{
  resource, chrdev_region, mapping, World, acquire, release-acquire, acquire_comm,
}
use kernel_code.Kernel.Device.{Env}
use kernel_code.Leds.Register.{Gpm4}
use kernel_code.Leds.Char.{init, exit}

-- `demo_init` returns 0, and `demo_exit` then gives back all that it took; or it returns -ENOMEM and
-- holds nothing; or it returns the error of `register_chrdev` and the registers stay mapped.
pub init-exit_chrdev :
    (env : Env) (w : World) (r r'' : Gpm4)
    → let (ret, w', r') = init env w r in
      if is_done (env (resource mapping 0))
      then if is_done (env (resource chrdev_region 0))
        then (ret ≡ pos 0) × ((exit w' r'').0 ≡ w)
        else (ret ≡ code (env (resource chrdev_region 0))) × (w' ≡ acquire (resource mapping 0) w)
      else (ret ≡ enomem) × (w' ≡ w)
unfolding init exit
init-exit_chrdev env w r r'' = ground (
  arith,
  release-acquire (resource mapping 0) w,
  acquire_comm (resource chrdev_region 0) (resource mapping 0) w,
  release-acquire (resource mapping 0) (acquire (resource chrdev_region 0) w),
  release-acquire (resource chrdev_region 0) w,
)
