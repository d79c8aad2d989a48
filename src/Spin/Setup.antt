-- ===== src/Spin/Setup.antt =====
-- The resources of the drivers with a spin lock, and who opens the device of kernel_code_v1/lock/spin_trylock.
use kernel_code.Prelude.{
  ℕ, suc, ◌≤◌, ◌≡◌, refl, ap, ◌∙◌, ◌⊎◌, inl, inr, true, ◌&&◌, pos, is_negative, arith, ◌==◌,
  if◌then◌else◌,
}
use kernel_code.Kernel.Errno.{is_done, ebusy}
use kernel_code.Kernel.World.{resource, misc, World, acquire, release-acquire}
use kernel_code.Kernel.Device.{Env}
use kernel_code.Kernel.Lock.{Lock}
use kernel_code.Irq.Request.{with_irqs, irqs_granted, request_irq_key_lem, free_irq_key_lem}
use kernel_code.Irq.Keys.Setup.{irq_error-negative}
use kernel_code.Spin.Keyed.{request_irq_key, free_irq_key, init, exit}
use kernel_code.Spin.Older.Trylock.{demo_open, demo_release}

exit-loaded : (w : World) → exit (acquire (resource misc 0) (with_irqs w)) ≡ w
unfolding exit free_irq_key
exit-loaded w = rw (release-acquire (resource misc 0) (with_irqs w)) (free_irq_key_lem w)

-- `demo_init` returns 0 and holds the four interrupts and the misc device, which `demo_exit` gives
-- back; or it returns a negative error and holds nothing more than before.
pub init-exit_keyed :
    (env : Env) (w : World)
    → let (ret, w') = init env w in
      if irqs_granted env && is_done (env (resource misc 0))
      then (ret ≡ pos 0) × (w' ≡ acquire (resource misc 0) (with_irqs w)) × (exit w' ≡ w)
      else (is_negative ret ≡ true) × (w' ≡ w)
unfolding init request_irq_key free_irq_key
init-exit_keyed env w =
    ground
      (arith, request_irq_key_lem env w, irq_error-negative env, free_irq_key_lem w, exit-loaded w)

module _ (lock : Lock) where
  -- The opens and releases so far have left `n` files open and the lock as given.
  pub data Opened : (n : ℕ) → lock.State → Type 0 where
    none_yet : Opened 0 lock.free
    opens :
        {n : ℕ} {l : lock.State}
        → Opened n l
        → (demo_open lock l).0 ≡ pos 0
        → Opened (suc n) (demo_open lock l).1
    refused :
        {n : ℕ} {l : lock.State}
        → Opened n l
        → (demo_open lock l).0 ≡ ebusy
        → Opened n (demo_open lock l).1
    releases : {n : ℕ} {l : lock.State} → Opened (suc n) l → Opened n (demo_release lock l)

  open-free : demo_open lock lock.free ≡ (pos 0, lock.taken)
  unfolding demo_open
  open-free = rw (lock.try-free, demo_open) refl

  open-taken : demo_open lock lock.taken ≡ (ebusy, lock.taken)
  unfolding demo_open
  open-taken = rw (lock.try-taken, demo_open) refl

  -- With no file open the lock is free, with one it is taken; there are never more.
  Tells : ℕ → lock.State → Type 0
  Tells n l = ((n ≡ 0) × (l ≡ lock.free)) ⊎ ((n ≡ 1) × (l ≡ lock.taken))

  Opened-Tells : {n : ℕ} {l : lock.State} → Opened n l → Tells n l
  unfolding Tells demo_release
  Opened-Tells none_yet = inl (refl, refl)
  Opened-Tells (opens path ok) = elim (Opened-Tells path) [
    | inl (n_eq, l_eq) ↦
        inr (ap suc n_eq, ap (λ m. (demo_open lock m).1) l_eq ∙ ap (λ r. r.1) open-free)
    | inr (n_eq, l_eq) ↦ cc (ap (λ m. demo_open lock m) l_eq, ok, open-taken)
  ]
  Opened-Tells (refused path busy) = elim (Opened-Tells path) [
    | inl (n_eq, l_eq) ↦ cc (ap (λ m. demo_open lock m) l_eq, busy, open-free)
    | inr (n_eq, l_eq) ↦ inr (n_eq, ap (λ m. (demo_open lock m).1) l_eq ∙ ap (λ r. r.1) open-taken)
  ]
  Opened-Tells (releases path) = elim (Opened-Tells path) [
    | inl (n_eq, l_eq) ↦ absurd (omega (arith, n_eq))
    | inr (n_eq, l_eq) ↦ inl (omega (arith, n_eq), ap lock.leave l_eq ∙ lock.leave-taken)
  ]

  -- Whatever opens and releases came before, the next open is granted exactly if no file is open, and
  -- it fails with -EBUSY if one is; two are never open.
  pub opened_by_one :
      {n : ℕ} {l : lock.State}
      → Opened n l
      → ((demo_open lock l).0 ≡ (if n == 0 then pos 0 else ebusy)) × (n ≤ 1)
  unfolding Tells
  opened_by_one path = elim (Opened-Tells path) [
    | inl (n_eq, l_eq) ↦ rw (n_eq, l_eq) (ap (λ r. r.0) open-free, omega arith)
    | inr (n_eq, l_eq) ↦ rw (n_eq, l_eq) (ap (λ r. r.0) open-taken, omega arith)
  ]
