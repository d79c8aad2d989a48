-- ===== src/Irq/Request.antt =====
-- The four interrupts are requested all or not at all.
use kernel_code.Prelude.{ℕ, ◌≡◌, refl, Bool, true, false, ℤ, pos, arith, if◌then◌else◌}
use kernel_code.Kernel.Errno.{code, is_done}
use kernel_code.Kernel.World.{resource, irq, World, World-eq, acquire, release-acquire}
use kernel_code.Kernel.Device.{Env}
use kernel_code.Kernel.Unwind.{
  Rounds, added, stopped, taken, all_granted, first_error, settle-sweep, settle, sweep,
}
use kernel_code.Irq.{add_irq, remove_irq, request_irq_key, free_irq_key}

module _ (env : Env) (i : ℕ) (w : World) where
  pub add_irq-granted :
      is_done (env (resource irq i)) ≡ true → add_irq env i w ≡ added (acquire (resource irq i) w)
  unfolding add_irq
  add_irq-granted h = ground arith

  pub add_irq-refused :
      is_done (env (resource irq i)) ≡ false
      → add_irq env i w ≡ stopped (code (env (resource irq i))) w
  unfolding add_irq
  add_irq-refused h = ground arith

pub remove_irq-take : (i : ℕ) (w : World) → remove_irq i (acquire (resource irq i) w) ≡ w
unfolding remove_irq
remove_irq-take i w = release-acquire (resource irq i) w

unfoldable pub irq_rounds : (env : Env) → Rounds (add_irq env) remove_irq
irq_rounds env = record {
  granted = λ i. is_done (env (resource irq i));
  error = λ i. code (env (resource irq i));
  take = λ i. acquire (resource irq i);
  add_granted = add_irq-granted env;
  add_refused = add_irq-refused env;
  remove_take = remove_irq-take;
}

-- The four interrupts, held on top of `w`.
abbrev pub with_irqs : World → World
with_irqs w =
    acquire (resource irq 3)
      (acquire (resource irq 2) (acquire (resource irq 1) (acquire (resource irq 0) w)))

abbrev pub irqs_granted : Env → Bool
irqs_granted env = all_granted (irq_rounds env) 4 0

abbrev pub irq_error : Env → ℤ
irq_error env = first_error (irq_rounds env) 4 0 (pos 0)

taken-with_irqs : (env : Env) (w : World) → taken (irq_rounds env) 4 w ≡ with_irqs w
unfolding taken irq_rounds
taken-with_irqs env w = refl

settle-taken :
    (env : Env) (w : World)
    → settle remove_irq (pos 0) (λ v. v) (sweep (add_irq env) 4 0 w)
      ≡ (if irqs_granted env then (pos 0, taken (irq_rounds env) 4 w) else (irq_error env, w))
unfolding taken
settle-taken env w = settle-sweep (irq_rounds env) (pos 0) (λ v. v) 4 0 w

-- `request_irq_key` returns 0 with all four interrupts requested, or the first error with none of them.
pub request_irq_key_lem :
    (env : Env) (w : World)
    → request_irq_key env w
      ≡ (if irqs_granted env then (pos 0, with_irqs w) else (irq_error env, w))
unfolding request_irq_key
request_irq_key_lem env w = rw (settle-taken env w, taken-with_irqs env w) refl

in_order :
    (w : World)
    → with_irqs w
      ≡ acquire
          (resource irq 0)
          (acquire (resource irq 1) (acquire (resource irq 2) (acquire (resource irq 3) w)))
unfolding acquire
in_order w = World-eq (λ r. omega arith) refl

-- `free_irq_key` frees the four interrupts, and nothing that is not held.
pub free_irq_key_lem : (w : World) → free_irq_key (with_irqs w) ≡ w
unfolding free_irq_key remove_irq
free_irq_key_lem w = rw in_order (simp release-acquire)
