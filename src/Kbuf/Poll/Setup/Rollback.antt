-- ===== src/Kbuf/Poll/Setup/Rollback.antt =====
-- Initialisation takes all or nothing, and the exit function gives back what it took.
use kernel_code.Prelude.{ℕ, ◌≡◌, refl, Bool, true, false, ◌&&◌, ℤ, pos, arith, if◌then◌else◌}
use kernel_code.Kernel.Errno.{code, is_done, enomem}
use kernel_code.Kernel.World.{
  resource, buffer, cdev, device, proc_entry, World, World-eq, acquire, release, release-acquire,
}
use kernel_code.Kernel.Device.{Env}
use kernel_code.Kernel.Unwind.{
  Rounds, added, stopped, settle, sweep, taken, all_granted, first_error, settle-sweep,
  unwind-taken,
}
use kernel_code.Kbuf.Setup.{kbufnum, region, class, request_region, error1}
use kernel_code.Kbuf.Poll.Setup.{add_device, remove_device, init, exit}

abbrev pub take_device : ℕ → World → World
take_device i w =
    acquire (resource proc_entry i)
      (acquire (resource device i) (acquire (resource cdev i) (acquire (resource buffer i) w)))

abbrev pub device_granted : Env → ℕ → Bool
device_granted env i =
    is_done (env (resource buffer i))
    && is_done (env (resource cdev i))
    && is_done (env (resource device i))
    && is_done (env (resource proc_entry i))

-- What the round that is refused returns: 0 where it is not for want of storage or `cdev_add`.
abbrev pub device_error : Env → ℕ → ℤ
device_error env i =
    if is_done (env (resource buffer i)) then code (env (resource cdev i)) else enomem

module _ (i : ℕ) (w : World) where
  -- The acquisitions in the reverse order of the releases.
  last_first :
      take_device i w
      ≡ acquire (resource device i) (
          acquire
            (resource buffer i)
            (acquire (resource cdev i) (acquire (resource proc_entry i) w)))
  unfolding acquire
  last_first = World-eq (λ r. omega arith) refl

  pub remove_device-take : remove_device i (take_device i w) ≡ w
  unfolding remove_device
  remove_device-take = rw last_first (simp release-acquire)

  undo_last_first :
      acquire (resource device i) (acquire (resource cdev i) (acquire (resource buffer i) w))
      ≡ acquire (resource cdev i) (acquire (resource buffer i) (acquire (resource device i) w))
  unfolding acquire
  undo_last_first = World-eq (λ r. omega arith) refl

  undo_device :
      release (resource device i) (
        release (resource buffer i) (
          release (resource cdev i) (
            acquire
              (resource device i)
              (acquire (resource cdev i) (acquire (resource buffer i) w)))))
      ≡ w
  undo_device = rw undo_last_first (simp release-acquire)

module _ (env : Env) (i : ℕ) (w : World) where
  pub add_device-granted :
      device_granted env i ≡ true → add_device env i w ≡ added (take_device i w)
  unfolding add_device
  add_device-granted h = ground arith

  pub add_device-refused :
      device_granted env i ≡ false → add_device env i w ≡ stopped (device_error env i) w
  unfolding add_device
  add_device-refused h =
      let w₁ = acquire (resource buffer i) w in
      ground (
        arith,
        release-acquire (resource buffer i) w,
        release-acquire (resource cdev i) w₁,
        undo_device i w,
      )

unfoldable pub device_rounds : (env : Env) → Rounds (add_device env) remove_device
device_rounds env = record {
  granted = device_granted env;
  error = device_error env;
  take = take_device;
  add_granted = add_device-granted env;
  add_refused = add_device-refused env;
  remove_take = remove_device-take;
}

-- Every request of the initialisation is granted.
abbrev pub granted : Env → Bool
granted env =
    is_done (env region) && is_done (env class) && all_granted (device_rounds env) kbufnum 0

-- What the loaded driver holds.
abbrev pub loaded : Env → World → World
loaded env w = taken (device_rounds env) kbufnum (acquire class (acquire region w))

-- The first error, in the order of the requests.
abbrev pub error : Env → ℤ
error env =
    if is_done (env region)
    then if is_done (env class)
      then first_error (device_rounds env) kbufnum 0 (pos 0)
      else code (env class)
    else code (env region)

module _ (env : Env) where
  devices_lem :
      (w : World)
      → settle remove_device
          (pos 0)
          error1
          (sweep (add_device env) kbufnum 0 (acquire class (acquire region w)))
        ≡ (if all_granted (device_rounds env) kbufnum 0
            then (pos 0, loaded env w)
            else (first_error (device_rounds env) kbufnum 0 (pos 0), w))
  unfolding taken
  devices_lem w =
      rw (release-acquire class (acquire region w), release-acquire region w) at
        (settle-sweep (device_rounds env) (pos 0) error1 kbufnum 0
          (acquire class (acquire region w)))

  -- With the entries under /proc too, `kbuf_init` either returns 0 and holds the device numbers,
  -- the class and all that the 16 kbufs need, or it returns the first error and holds nothing more
  -- than before.
  pub init_all_or_nothing_with_proc :
      (major assigned : ℕ) (w : World)
      → let (ret, major', w') = init env major assigned w in
        ◌≡◌ {A = ℤ × World}
          (ret, w')
          (if granted env then (pos 0, loaded env w) else (error env, w))
  unfolding init request_region
  init_all_or_nothing_with_proc major assigned w =
      ground (arith, devices_lem w, release-acquire region w)

  -- After an initialisation that was granted everything, `kbuf_exit` releases all that it took, and
  -- nothing that is not held.
  pub exit-loaded_with_proc : (w : World) → exit (loaded env w) ≡ w
  unfolding exit
  exit-loaded_with_proc w =
      rw (unwind-taken (device_rounds env) kbufnum (acquire class (acquire region w)))
        (simp release-acquire)
