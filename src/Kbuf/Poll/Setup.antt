-- ===== src/Kbuf/Poll/Setup.antt =====
-- `kbuf_init` and `kbuf_exit` of kbufchardrv_poll/kbuf.c: each kbuf also has an entry under /proc.
pub mod Rollback
use kernel_code.Prelude.{ℕ, ℤ, pos, negsuc, is_negative, if◌then◌else◌}
use kernel_code.Kernel.Errno.{Outcome, done, failed, code, enomem}
use kernel_code.Kernel.World.{
  Resource, resource, buffer, cdev, device, proc_entry, World, acquire, release,
}
use kernel_code.Kernel.Device.{Env}
use kernel_code.Kernel.Unwind.{Round, added, stopped, sweep, unwind, settle}
use kernel_code.Kbuf.Setup.{kbufnum, region, class, request_region, error0, error1}

-- One round of the loop. Where `device_create` or `create_proc_read_entry` fails, `ret` is still what
-- `cdev_add` returned.
unfoldable pub add_device : Env → ℕ → World → Round
add_device env i w = elim (env (resource buffer i)) [
  | failed e ↦ stopped enomem w
  | done ↦
      let w₁ = acquire (resource buffer i) w in
      let ret = code (env (resource cdev i)) in
      elim (env (resource cdev i)) [
        | failed e ↦ stopped ret (release (resource buffer i) w₁)
        | done ↦
            let w₂ = acquire (resource cdev i) w₁ in
            elim (env (resource device i)) [
              | failed e ↦ stopped ret (release (resource buffer i) (release (resource cdev i) w₂))
              | done ↦
                  let w₃ = acquire (resource device i) w₂ in
                  elim (env (resource proc_entry i)) [
                    | failed e ↦ stopped ret (
                        release (resource device i)
                          (release (resource buffer i) (release (resource cdev i) w₃)))
                    | done ↦ added (acquire (resource proc_entry i) w₃)
                  ]
            ]
      ]
]

unfoldable pub remove_device : ℕ → World → World
remove_device i w =
    release (resource proc_entry i)
      (release (resource cdev i) (release (resource buffer i) (release (resource device i) w)))

unfoldable pub init : Env → (major assigned : ℕ) → World → ℤ × ℕ × World
init env major assigned w =
    let (ret, major', w₁) = request_region env major assigned w in
    if is_negative ret then (ret, major', w₁) else (elim (env class) [
      | failed e ↦ (negsuc e, major', error0 w₁)
      | done ↦
          let (ret', w₂) =
            settle remove_device ret error1 (sweep (add_device env) kbufnum 0 (acquire class w₁)) in
          (ret', major', w₂)
    ])

unfoldable pub exit : World → World
exit w = release region (release class (unwind remove_device kbufnum w))
