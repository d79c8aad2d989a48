-- ===== src/Kbuf/Setup.antt =====
-- `kbuf_init` and `kbuf_exit` of kbufchardrv/kbuf.c: the device numbers, the class, and for each of
-- the 16 kbufs its storage, its character device and its file under /dev.
pub mod Rollback
use kernel_code.Prelude.{ℕ, zero, suc, ℤ, pos, negsuc, is_negative, ◌==◌, if◌then◌else◌}
use kernel_code.Kernel.Errno.{Outcome, done, failed, code, enomem}
use kernel_code.Kernel.World.{
  Resource, resource, chrdev_region, device_class, buffer, cdev, device, World, acquire, release,
}
use kernel_code.Kernel.Device.{Env}
use kernel_code.Kernel.Unwind.{Round, added, stopped, sweep, unwind, settle}

abbrev pub kbufnum : ℕ
kbufnum = 16

abbrev pub region : Resource
region = resource chrdev_region 0

abbrev pub class : Resource
class = resource device_class 0

module _ (env : Env) where
  -- The device numbers: any that are free if `major` is 0 (`assigned` is what the kernel chose), else
  -- those of `major`. The result is `ret`, `major` and the world.
  unfoldable pub request_region : (major assigned : ℕ) → World → ℤ × ℕ × World
  request_region major assigned w =
      if major == 0
      then (elim (env region) [
        | done ↦ (pos 0, assigned, acquire region w)
        | failed e ↦ (negsuc e, major, w)
      ])
      else (elim (env region) [
        | done ↦ (pos 0, major, acquire region w)
        | failed e ↦ (negsuc e, major, w)
      ])

  -- One round of the loop. Where `device_create` fails, `ret` is still what `cdev_add` returned.
  unfoldable pub add_device : ℕ → World → Round
  add_device i w = elim (env (resource buffer i)) [
    | failed e ↦ stopped enomem w
    | done ↦
        let w₁ = acquire (resource buffer i) w in
        let ret = code (env (resource cdev i)) in
        elim (env (resource cdev i)) [
          | failed e ↦ stopped ret (release (resource buffer i) w₁)
          | done ↦
              let w₂ = acquire (resource cdev i) w₁ in
              elim (env (resource device i)) [
                | failed e ↦
                    stopped ret (release (resource buffer i) (release (resource cdev i) w₂))
                | done ↦ added (acquire (resource device i) w₂)
              ]
        ]
  ]

-- One round of `while (i--)`, in `kbuf_init` and in `kbuf_exit`.
unfoldable pub remove_device : ℕ → World → World
remove_device i w =
    release (resource cdev i) (release (resource buffer i) (release (resource device i) w))

-- The labels `error0` and `error1`, behind the loop.
abbrev pub error0 : World → World
error0 w = release region w

abbrev pub error1 : World → World
error1 w = error0 (release class w)

-- The result is what the function returns, `major` and the world.
unfoldable pub init : Env → (major assigned : ℕ) → World → ℤ × ℕ × World
init env major assigned w =
    let (ret, major', w₁) = request_region env major assigned w in
    if is_negative ret then (ret, major', w₁) else (elim (env class) [
      | failed e ↦ (negsuc e, major', error0 w₁)
      | done ↦
          let (ret', w₂) =
            settle remove_device ret error1 (sweep (add_device env) kbufnum 0 (acquire class w₁)) in
          (ret', major', w₂)
    ])

unfoldable pub exit : World → World
exit w = release region (release class (unwind remove_device kbufnum w))
