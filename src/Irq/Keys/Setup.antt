-- ===== src/Irq/Keys/Setup.antt =====
-- What the key driver holds after its initialisation and its exit.
use kernel_code.Prelude.{◌≡◌, refl, Bool, true, false, ◌&&◌, pos, is_negative, arith, if◌then◌else◌}
use kernel_code.Kernel.Errno.{is_done}
use kernel_code.Kernel.World.{resource, misc, World, World-eq, acquire, release-acquire}
use kernel_code.Kernel.Device.{Env}
use kernel_code.Kernel.Unwind.{all_granted, first_error}
use kernel_code.Irq.Request.{
  irq_rounds, with_irqs, irqs_granted, irq_error, request_irq_key_lem, free_irq_key_lem,
}
use kernel_code.Irq.Keys.{init, exit}

-- The error of an interrupt that is refused is negative.
pub irq_error-negative : (env : Env) → irqs_granted env ≡ false → is_negative (irq_error env) ≡ true
unfolding all_granted first_error irq_rounds
irq_error-negative env h = ground arith

abbrev pub granted : Env → Bool
granted env = irqs_granted env && is_done (env (resource misc 0))

misc_first :
    (w : World) → acquire (resource misc 0) (with_irqs w) ≡ with_irqs (acquire (resource misc 0) w)
unfolding acquire
misc_first w = World-eq (λ r. omega arith) refl

exit-loaded : (w : World) → exit (acquire (resource misc 0) (with_irqs w)) ≡ w
unfolding exit
exit-loaded w =
    rw (misc_first w, free_irq_key_lem (acquire (resource misc 0) w))
      (release-acquire (resource misc 0) w)

-- `kbuf_init` returns 0 and holds the four interrupts and the misc device, which `kbuf_exit` gives
-- back; or it returns a negative error and holds nothing more than before.
pub init-exit_keys :
    (env : Env) (w : World)
    → let (ret, w') = init env w in
      if granted env
      then (ret ≡ pos 0) × (w' ≡ acquire (resource misc 0) (with_irqs w)) × (exit w' ≡ w)
      else (is_negative ret ≡ true) × (w' ≡ w)
unfolding init
init-exit_keys env w =
    ground
      (arith, request_irq_key_lem env w, irq_error-negative env, free_irq_key_lem w, exit-loaded w)
