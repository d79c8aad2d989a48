-- ===== src/Leds/Older/Laws.antt =====
-- What a command does to the LEDs, and which resources the older driver holds.
use kernel_code.Prelude.{
  ℕ, ◌-◌, ◌≤◌, ◌≡◌, ◌⊎◌, inl, inr, refl, Bool, ◌&&◌, pos, set, arith, Bool-cases, ltb,
  if◌then◌else◌,
}
use kernel_code.Kernel.Errno.{code, is_done, einval}
use kernel_code.Kernel.World.{
  resource, chrdev_region, device_class, cdev, device, mapping, proc_entry, World, World-eq,
  acquire, release-acquire,
}
use kernel_code.Kernel.Device.{Env}
use kernel_code.Leds.Register.{Gpm4, led_on, led_off, ledonoff, ledstat}
use kernel_code.Leds.Register.Bits.{ledonoff_lem}
use kernel_code.Leds.Older.{led_ctr, init, exit}

led_ctr-ledonoff :
    (lednum ledcmd : ℕ) (r : Gpm4)
    → 1 ≤ lednum
    → lednum ≤ 4
    → ledcmd ≤ 1
    → led_ctr lednum ledcmd r ≡ (pos 0, ledonoff (2 - ledcmd) lednum r)
unfolding led_ctr ledonoff
led_ctr-ledonoff lednum ledcmd r lo hi c = ground arith

which : (ledcmd : ℕ) → ledcmd ≤ 1 → (2 - ledcmd ≡ led_on) ⊎ (2 - ledcmd ≡ led_off)
which ledcmd c = omega arith

accepted :
    (lednum ledcmd : ℕ) (r : Gpm4)
    → 1 ≤ lednum
    → lednum ≤ 4
    → ledcmd ≤ 1
    → let (ret, r') = led_ctr lednum ledcmd r in
      (ret ≡ pos 0) × (ledstat r' ≡ set (ledstat r) (lednum - 1) (2 - ledcmd))
accepted lednum ledcmd r lo hi c =
    rw (led_ctr-ledonoff lednum ledcmd r lo hi c)
      (refl, (ledonoff_lem (2 - ledcmd) lednum r (which ledcmd c) lo hi).0)

-- `led_ctr` with a number from 1 to 4 and a command 0 or 1 returns 0, puts that LED off or on and leaves
-- the others as they are; with anything else it returns -EINVAL and changes nothing.
pub led_ctr_lem :
    (lednum ledcmd : ℕ) (r : Gpm4)
    → let (ret, r') = led_ctr lednum ledcmd r in
      if (ltb 0 lednum && ltb lednum 5) && ltb ledcmd 2
      then (ret ≡ pos 0) × (ledstat r' ≡ set (ledstat r) (lednum - 1) (2 - ledcmd))
      else (ret ≡ einval) × (r' ≡ r)
unfolding led_ctr
led_ctr_lem lednum ledcmd r = elim (Bool-cases ((ltb 0 lednum && ltb lednum 5) && ltb ledcmd 2)) [
  | inl good ↦ rw good (accepted lednum ledcmd r (ground arith) (ground arith) (ground arith))
  | inr bad ↦ rw bad (ground arith)
]

abbrev pub granted : Env → Bool
granted env =
    (is_done (env (resource chrdev_region 0)) && is_done (env (resource device_class 0)))
    && (is_done (env (resource cdev 0)) && is_done (env (resource device 0)))
    && (is_done (env (resource mapping 0)) && is_done (env (resource proc_entry 0)))

abbrev mapped : World → World
mapped w = acquire (resource mapping 0) (
    acquire (resource device 0) (
      acquire (resource cdev 0)
        (acquire (resource device_class 0) (acquire (resource chrdev_region 0) w))))

loaded : World → World
loaded w = acquire (resource proc_entry 0) (mapped w)

in_order :
    (w : World)
    → loaded w
      ≡ acquire (resource mapping 0) (
          acquire (resource device 0) (
            acquire (resource device_class 0) (
              acquire
                (resource chrdev_region 0)
                (acquire (resource cdev 0) (acquire (resource proc_entry 0) w)))))
unfolding acquire loaded
in_order w = World-eq (λ r. omega arith) refl

exit-loaded : (w : World) (r : Gpm4) → (exit (loaded w) r).0 ≡ w
unfolding exit
exit-loaded w r = rw in_order (simp release-acquire)

-- With all six requests granted `demo_init` returns 0, and `demo_exit` gives back all that it took. Else
-- nothing more is held than before, and the error of the refused request is returned, but for
-- the registers and the entry under /proc: where one of these is refused, 0 is returned.
pub init-exit_older :
    (env : Env) (w : World) (r r'' : Gpm4)
    → let (ret, w', r') = init env w r in
      if granted env
      then (ret ≡ pos 0) × ((exit w' r'').0 ≡ w)
      else (w' ≡ w)
        × (ret ≡ (
            if is_done (env (resource chrdev_region 0))
            then if is_done (env (resource device_class 0))
              then if is_done (env (resource cdev 0))
                then code (env (resource device 0))
                else code (env (resource cdev 0))
              else code (env (resource device_class 0))
            else code (env (resource chrdev_region 0))))
unfolding init loaded
init-exit_older env w r r'' = ground (
  arith,
  release-acquire (resource chrdev_region 0) w,
  release-acquire (resource device_class 0) (acquire (resource chrdev_region 0) w),
  release-acquire (resource cdev 0)
      (acquire (resource device_class 0) (acquire (resource chrdev_region 0) w)),
  release-acquire (resource device 0) (
      acquire (resource cdev 0)
        (acquire (resource device_class 0) (acquire (resource chrdev_region 0) w))),
  release-acquire (resource mapping 0) (
      acquire (resource device 0) (
        acquire (resource cdev 0)
          (acquire (resource device_class 0) (acquire (resource chrdev_region 0) w)))),
  exit-loaded w r'',
)
