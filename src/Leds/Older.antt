-- ===== src/Leds/Older.antt =====
-- kernel_code_v1/leds/demo.c: the LEDs through GPM4 as a character device of its own class.
pub mod Laws
use kernel_code.Prelude.{
  ℕ, ◌+◌, ◌-◌, ◌*◌, ◌^◌, ◌%◌, List, ℤ, pos, negsuc, get_or, not, ◌||◌, is_negative, ◌==◌, leb, ltb,
  if◌then◌else◌,
}
use kernel_code.Kernel.Errno.{done, failed, code, einval}
use kernel_code.Kernel.World.{
  resource, chrdev_region, device_class, cdev, device, mapping, proc_entry, World, acquire, release,
}
use kernel_code.Kernel.Device.{Env}
use kernel_code.Kernel.Memory.{UserAccess}
use kernel_code.Leds.Register.{Gpm4, clear_bit, set_bit}
use kernel_code.Leds.Misc.{set_up}

-- `lednum` and `ledcmd` are `int`s, given as their 32 bits: from 2^31 on they are negative.
unfoldable pub led_ctr : (lednum ledcmd : ℕ) → Gpm4 → ℤ × Gpm4
led_ctr lednum ledcmd r =
    if (ltb lednum 1 || leb (2 ^ 31) lednum) || ltb 4 lednum
    then (einval, r)
    else if ledcmd == 1
    then (pos 0, record r { dat = clear_bit r.dat (lednum - 1) })
    else if ledcmd == 0
    then (pos 0, record r { dat = set_bit r.dat (lednum - 1) })
    else (einval, r)

-- The `int` at byte `off`, least byte first.
abbrev pub get_int : List ℕ → ℕ → ℕ
get_int bs off =
    get_or bs off 0
    + get_or bs (off + 1) 0 * 2 ^ 8
    + get_or bs (off + 2) 0 * 2 ^ 16
    + get_or bs (off + 3) 0 * 2 ^ 24

-- `led_ctl_t` is two `int`s.
unfoldable pub write : UserAccess → (src : List ℕ) (cnt : ℕ) → Gpm4 → ℤ × Gpm4
write user src cnt r =
    let (left, val) = user.copy_in src 8 in
    let (ret, r') = led_ctr (get_int val 0) (get_int val 4) r in
    if not (cnt == 8)
    then (einval, r)
    else if not (left == 0)
    then (einval, r)
    else if is_negative ret
    then (ret, r')
    else (pos cnt, r')

-- The labels `error0` to `error4`, each falling through to the one before.
abbrev pub error0 : World → World
error0 w = release (resource chrdev_region 0) w

abbrev pub error1 : World → World
error1 w = error0 (release (resource device_class 0) w)

abbrev pub error2 : World → World
error2 w = error1 (release (resource cdev 0) w)

abbrev pub error3 : World → World
error3 w = error2 (release (resource device 0) w)

abbrev pub error4 : World → World
error4 w = error3 (release (resource mapping 0) w)

-- Where `ioremap` or `create_proc_entry` fails, `ret` is still what `cdev_add` returned.
unfoldable pub init : Env → World → Gpm4 → ℤ × World × Gpm4
init env w r = elim (env (resource chrdev_region 0)) [
  | failed e ↦ (code (failed e), w, r)
  | done ↦
      let w₁ = acquire (resource chrdev_region 0) w in
      elim (env (resource device_class 0)) [
        | failed e ↦ (code (failed e), error0 w₁, r)
        | done ↦
            let w₂ = acquire (resource device_class 0) w₁ in
            let ret = code (env (resource cdev 0)) in
            elim (env (resource cdev 0)) [
              | failed e ↦ (ret, error1 w₂, r)
              | done ↦
                  let w₃ = acquire (resource cdev 0) w₂ in
                  elim (env (resource device 0)) [
                    | failed e ↦ (code (failed e), error2 w₃, r)
                    | done ↦
                        let w₄ = acquire (resource device 0) w₃ in
                        elim (env (resource mapping 0)) [
                          | failed e ↦ (ret, error3 w₄, r)
                          | done ↦
                              let w₅ = acquire (resource mapping 0) w₄ in
                              elim (env (resource proc_entry 0)) [
                                | failed e ↦ (ret, error4 w₅, set_up r)
                                | done ↦ (pos 0, acquire (resource proc_entry 0) w₅, set_up r)
                              ]
                        ]
                  ]
            ]
      ]
]

-- `led_ctr(i+1, 0)` for each LED, and the releases in the order of the code.
unfoldable pub exit : World → Gpm4 → World × Gpm4
exit w r =
    let off = λ (n : ℕ) (q : Gpm4). (led_ctr n 0 q).1 in
    (
      release (resource proc_entry 0) (
          release (resource cdev 0) (
            release (resource chrdev_region 0) (
              release (resource device_class 0)
                (release (resource device 0) (release (resource mapping 0) w))))),
      off 4 (off 3 (off 2 (off 1 r))),
    )
