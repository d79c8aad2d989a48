-- ===== src/Kbuf/Setup/Rollback.antt =====
-- Initialisation takes all or nothing, and the exit function gives back what it took.
use kernel_code.Prelude.{
  zero, suc, Bool-cases, inl, inr, is_negative, not, ◌||◌, ℕ, ◌+◌, ◌<◌, ◌≡◌, refl, ap, ◌∙◌, Bool,
  true, false, ◌&&◌, ℤ, pos, arith, if◌then◌else◌,
}
use kernel_code.Kernel.Errno.{done, failed, code, is_done, enomem}
use kernel_code.Kernel.World.{
  resource, buffer, cdev, device, World, nothing_held, acquire, release, release-acquire,
  acquire_comm,
}
use kernel_code.Kernel.Device.{Env}
use kernel_code.Kernel.Unwind.{
  Rounds, added, stopped, unwind, settle, sweep, taken, all_granted, first_error,
  first_error-granted, first_error-refused, settle-sweep, unwind-taken, first_error-eq,
}
use kernel_code.Kbuf.Setup.{
  kbufnum, region, class, request_region, add_device, remove_device, error1, init, exit,
}

-- What a device takes, and whether the kernel grants all of it.
abbrev pub take_device : ℕ → World → World
take_device i w =
    acquire (resource device i) (acquire (resource cdev i) (acquire (resource buffer i) w))

abbrev pub device_granted : Env → ℕ → Bool
device_granted env i =
    is_done (env (resource buffer i))
    && is_done (env (resource cdev i))
    && is_done (env (resource device i))

-- What the round that is refused returns: 0 where it is `device_create` that fails.
abbrev pub device_error : Env → ℕ → ℤ
device_error env i =
    if is_done (env (resource buffer i)) then code (env (resource cdev i)) else enomem

pub remove_device-take : (i : ℕ) (w : World) → remove_device i (take_device i w) ≡ w
unfolding remove_device
remove_device-take i w = simp (release-acquire, acquire_comm (resource cdev i) (resource buffer i))

module _ (env : Env) (i : ℕ) (w : World) where
  pub add_device-granted :
      device_granted env i ≡ true → add_device env i w ≡ added (take_device i w)
  unfolding add_device
  add_device-granted h = ground arith

  pub add_device-refused :
      device_granted env i ≡ false → add_device env i w ≡ stopped (device_error env i) w
  unfolding add_device
  add_device-refused h =
      let w₁ = acquire (resource buffer i) w in
      ground (arith, release-acquire (resource buffer i) w, release-acquire (resource cdev i) w₁)

unfoldable pub device_rounds : (env : Env) → Rounds (add_device env) remove_device
device_rounds env = record {
  granted = device_granted env;
  error = device_error env;
  take = take_device;
  add_granted = add_device-granted env;
  add_refused = add_device-refused env;
  remove_take = remove_device-take;
}

-- Every request of the initialisation is granted.
abbrev pub granted : Env → Bool
granted env =
    is_done (env region) && is_done (env class) && all_granted (device_rounds env) kbufnum 0

-- What the loaded driver holds.
abbrev pub loaded : Env → World → World
loaded env w = taken (device_rounds env) kbufnum (acquire class (acquire region w))

-- The first error, in the order of the requests.
abbrev pub error : Env → ℤ
error env =
    if is_done (env region)
    then if is_done (env class)
      then first_error (device_rounds env) kbufnum 0 (pos 0)
      else code (env class)
    else code (env region)

-- Whether the first round that is refused is so at `device_create`.
abbrev pub device_hidden : Env → (rounds i : ℕ) → Bool
device_hidden env zero i = false
device_hidden env (suc k) i =
    let later = device_hidden env k (suc i) in
    if device_granted env i
    then later
    else is_done (env (resource buffer i)) && is_done (env (resource cdev i))

-- Whether the first request that is refused is a `device_create`.
abbrev pub hides_error : Env → Bool
hides_error env = is_done (env region) && is_done (env class) && device_hidden env kbufnum 0

device_error_lem :
    (env : Env) (i : ℕ)
    → device_granted env i ≡ false
    → let hidden = is_done (env (resource buffer i)) && is_done (env (resource cdev i)) in
      (is_negative (device_error env i) ≡ not hidden)
      × ((if hidden then device_error env i else pos 0) ≡ pos 0)
device_error_lem env i refused = ground arith

first_error_lem :
    (env : Env) (k i : ℕ)
    → all_granted (device_rounds env) k i ≡ false
    → let err = first_error (device_rounds env) k i (pos 0) in
      (is_negative err ≡ not (device_hidden env k i))
      × ((if device_hidden env k i then err else pos 0) ≡ pos 0)
unfolding all_granted device_rounds
first_error_lem env zero i refused = cc
first_error_lem env (suc k) i refused = elim (Bool-cases (device_granted env i)) [
  | inl all ↦
      let later = first_error_lem env k (suc i) (rw all at refused) in
      rw (first_error-granted (device_rounds env) k i (pos 0) all, all) later
  | inr stops ↦
      rw (first_error-refused (device_rounds env) k i (pos 0) stops, stops)
        (device_error_lem env i stops)
]

error1-loaded : (w : World) → error1 (acquire class (acquire region w)) ≡ w
error1-loaded w = simp release-acquire

module _ (env : Env) where
  devices_lem :
      (w : World)
      → settle remove_device
          (pos 0)
          error1
          (sweep (add_device env) kbufnum 0 (acquire class (acquire region w)))
        ≡ (if all_granted (device_rounds env) kbufnum 0
            then (pos 0, loaded env w)
            else (first_error (device_rounds env) kbufnum 0 (pos 0), w))
  unfolding taken
  devices_lem w =
      rw (release-acquire class (acquire region w), release-acquire region w) at
        (settle-sweep (device_rounds env) (pos 0) error1 kbufnum 0
          (acquire class (acquire region w)))

  init_lem :
      (major assigned : ℕ) (w : World)
      → let (ret, major', w') = init env major assigned w in
        ◌≡◌ {A = ℤ × World}
          (ret, w')
          (if granted env then (pos 0, loaded env w) else (error env, w))
  unfolding init request_region
  init_lem major assigned w = ground (arith, devices_lem w, release-acquire region w)

  error_lem :
      granted env ≡ false
      → (is_negative (error env) ≡ not (hides_error env))
        × ((if hides_error env then error env else pos 0) ≡ pos 0)
  error_lem refused = ground (arith, first_error_lem env kbufnum 0)

  -- If every request is granted, `kbuf_init` returns 0 and holds the device numbers, the class and all 16
  -- devices. Else it holds nothing more than before, and it returns the code of the first request that is
  -- refused, which is negative, but where that is a `device_create` it returns 0.
  pub init_all_or_nothing :
      (major assigned : ℕ) (w : World)
      → let (ret, major', w') = init env major assigned w in
        (◌≡◌ {A = ℤ × World}
          (ret, w')
          (if granted env
            then (pos 0, loaded env w)
            else if hides_error env
            then (pos 0, w)
            else (error env, w)))
        × (is_negative ret ≡ not (granted env || hides_error env))
  init_all_or_nothing major assigned w = ground (arith, init_lem major assigned w, error_lem)

-- After an initialisation that was granted everything, `kbuf_exit` releases all that it took, and
-- nothing that is not held.
pub exit-loaded : (env : Env) (w : World) → exit (loaded env w) ≡ w
unfolding exit
exit-loaded env w =
    rw (unwind-taken (device_rounds env) kbufnum (acquire class (acquire region w)))
      (simp release-acquire)

exit-nothing_held : (exit nothing_held).faults ≡ 50
unfolding exit remove_device unwind release
exit-nothing_held = refl

-- From a world in which nothing is held: if `device_create` fails at some kbuf and everything
-- before was granted, `kbuf_init` gives all back and returns 0, so that the module counts as
-- loaded, and `kbuf_exit` then releases 50 resources that are not held.
pub init_hides_device_error :
    (env : Env) (major assigned i e : ℕ)
    → i < kbufnum
    → is_done (env region) ≡ true
    → is_done (env class) ≡ true
    → all_granted (device_rounds env) i 0 ≡ true
    → env (resource buffer i) ≡ done
    → env (resource cdev i) ≡ done
    → env (resource device i) ≡ failed e
    → let (ret, major', w) = init env major assigned nothing_held in
      (ret ≡ pos 0) × (w ≡ nothing_held) × ((exit w).faults ≡ 50)
unfolding device_rounds
init_hides_device_error env major assigned i e lt hr hc before hb hd hf =
    let z : 0 + i ≡ i = omega arith in
    let refused : device_granted env (0 + i) ≡ false = rw z (ground arith) in
    let first = first_error-eq (device_rounds env) i kbufnum 0 (pos 0) lt before refused in
    let hidden : first_error (device_rounds env) kbufnum 0 (pos 0) ≡ pos 0 =
      first.0 ∙ rw z (ground arith) in
    let result = init_lem env major assigned nothing_held in
    let shown : ◌≡◌ {A = ℤ × World}
        (let (ret, major', w) = init env major assigned nothing_held in (ret, w))
        (pos 0, nothing_held) =
      ground arith in
    (
      ap (λ r. r.0) shown,
      ap (λ r. r.1) shown,
      ap (λ r. (exit r.1).faults) shown ∙ exit-nothing_held,
    )
