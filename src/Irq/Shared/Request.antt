-- ===== src/Irq/Shared/Request.antt =====
-- Both functions on all four interrupts are requested, or none.
use kernel_code.Prelude.{ℕ, ◌≡◌, refl, Bool, true, false, ◌&&◌, ℤ, pos, arith, if◌then◌else◌}
use kernel_code.Kernel.Errno.{code, is_done}
use kernel_code.Kernel.World.{
  resource, irq, irq_shared, World, World-eq, acquire, release-acquire, acquire_comm,
}
use kernel_code.Kernel.Device.{Env}
use kernel_code.Kernel.Unwind.{
  Rounds, added, stopped, taken, all_granted, first_error, settle-sweep, settle, sweep,
}
use kernel_code.Irq.Shared.{add_irqs, remove_irqs, request_irq_key, free_irq_key, init, exit}

abbrev pub take_irqs : ℕ → World → World
take_irqs i w = acquire (resource irq_shared i) (acquire (resource irq i) w)

abbrev pub both_granted : Env → ℕ → Bool
both_granted env i = is_done (env (resource irq i)) && is_done (env (resource irq_shared i))

abbrev pub irqs_error : Env → ℕ → ℤ
irqs_error env i =
    if is_done (env (resource irq i))
    then code (env (resource irq_shared i))
    else code (env (resource irq i))

module _ (env : Env) (i : ℕ) (w : World) where
  pub add_irqs-granted : both_granted env i ≡ true → add_irqs env i w ≡ added (take_irqs i w)
  unfolding add_irqs
  add_irqs-granted h = ground arith

  pub add_irqs-refused :
      both_granted env i ≡ false → add_irqs env i w ≡ stopped (irqs_error env i) w
  unfolding add_irqs
  add_irqs-refused h = ground (arith, release-acquire (resource irq i) w)

pub remove_irqs-take : (i : ℕ) (w : World) → remove_irqs i (take_irqs i w) ≡ w
unfolding remove_irqs
remove_irqs-take i w =
    rw (acquire_comm (resource irq_shared i) (resource irq i) w) (simp release-acquire)

unfoldable pub irqs_rounds : (env : Env) → Rounds (add_irqs env) remove_irqs
irqs_rounds env = record {
  granted = both_granted env;
  error = irqs_error env;
  take = take_irqs;
  add_granted = add_irqs-granted env;
  add_refused = add_irqs-refused env;
  remove_take = remove_irqs-take;
}

abbrev pub with_all : World → World
with_all w = take_irqs 3 (take_irqs 2 (take_irqs 1 (take_irqs 0 w)))

pub settle-with_all :
    (env : Env) (w : World)
    → settle remove_irqs (pos 0) (λ v. v) (sweep (add_irqs env) 4 0 w) ≡ (
        if all_granted (irqs_rounds env) 4 0
        then (pos 0, with_all w)
        else (first_error (irqs_rounds env) 4 0 (pos 0), w))
unfolding taken irqs_rounds
settle-with_all env w = settle-sweep (irqs_rounds env) (pos 0) (λ v. v) 4 0 w

in_order : (w : World) → with_all w ≡ take_irqs 0 (take_irqs 1 (take_irqs 2 (take_irqs 3 w)))
unfolding acquire
in_order w = World-eq (λ r. omega arith) refl

exit-with_all : (w : World) → exit (with_all w) ≡ w
unfolding exit free_irq_key
exit-with_all w = rw in_order (simp remove_irqs-take)

-- With two functions on each interrupt, `kbuf_init` returns 0 with all eight requested, and `kbuf_exit`
-- then frees them; or it returns the first error with none requested.
pub init-exit_shared :
    (env : Env) (w : World)
    → let (ret, w') = init env w in
      if all_granted (irqs_rounds env) 4 0
      then (ret ≡ pos 0) × (w' ≡ with_all w) × (exit w' ≡ w)
      else (ret ≡ first_error (irqs_rounds env) 4 0 (pos 0)) × (w' ≡ w)
unfolding init request_irq_key
init-exit_shared env w = ground (arith, settle-with_all env w, exit-with_all w)
