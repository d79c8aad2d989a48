-- ===== src/Irq/Older/Reports.antt =====
-- The events that kernel_code_v1/inputsubsys_keys/key.c reports, and the resources of the older input drivers.
use kernel_code.Prelude.{
  ℕ, ◌+◌, ◌%◌, ◌^◌, ◌≡◌, refl, sym, ap, ◌∙◌, Bool, true, false, not, List, [], ◌∷◌, ◌++◌, pos,
  append-nil, append_assoc, is_negative, arith, if◌then◌else◌,
}
use kernel_code.Kernel.World.{resource, input_device, World, release-acquire}
use kernel_code.Kernel.Device.{Env}
use kernel_code.Irq.Request.{with_irqs}
use kernel_code.Irq.Keys.Setup.{irq_error-negative}
use kernel_code.Irq.InputKeys.{is_down}
use kernel_code.Irq.InputKeys.Reports.{granted, registered, unregister-registered, next_parity}
use kernel_code.Irq.Halves.{Halves, handled}
use kernel_code.Irq.Halves.Older
use kernel_code.Irq.Touch.Frames.{toggled}
use kernel_code.Irq.Older.Laws.{register_4keys_lem, unregister_4keys_lem}
use kernel_code.Irq.Older.InputKeys.{Direkey, do_timer, init, exit}

exit-loaded : (w : World) → exit (with_irqs (registered w)) ≡ w
unfolding exit
exit-loaded w = rw (unregister_4keys_lem (registered w)) (unregister-registered w)

-- `demo_init` of the input device returns 0, and `demo_exit` then gives back all that it took; or it
-- returns a negative error and holds nothing more than before.
pub init-exit_older_input :
    (env : Env) (w : World)
    → let (ret, w') = init env w in
      if granted env then (ret ≡ pos 0) × (exit w' ≡ w) else (is_negative ret ≡ true) × (w' ≡ w)
unfolding init
init-exit_older_input env w = ground (
  arith,
  release-acquire (resource input_device 0) w,
  register_4keys_lem env (registered w),
  irq_error-negative env,
  exit-loaded w,
  unregister-registered w,
)

-- What is to be reported of keys that are handled in turn: each is pressed and let go by turns.
abbrev pub turns : (ℕ → Bool) → List ℕ → List (ℕ × Bool)
turns down [] = []
turns down (k ∷ ks) = (k, not (down k)) ∷ turns (toggled down k) ks

handled-turns :
    (ks : List ℕ) (down : ℕ → Bool) (s : Direkey)
    → ((i : ℕ) → is_down (s.cnt i) ≡ down i)
    → (handled do_timer ks s).reports ≡ s.reports ++ turns down ks
unfolding do_timer
handled-turns [] down s v = sym (append-nil s.reports)
handled-turns (k ∷ ks) down s v =
    let value : is_down ((s.cnt k + 1) % 2 ^ 32) ≡ not (down k) =
      next_parity (s.cnt k) ∙ ap not (v k) in
    handled-turns ks (toggled down k) (do_timer k s) (λ i. ground (arith, value, v i))
    ∙ append_assoc s.reports ((k, is_down ((s.cnt k + 1) % 2 ^ 32)) ∷ [])
        (turns (toggled down k) ks)
    ∙ ap (λ b. s.reports ++ (k, b) ∷ turns (toggled down k) ks) value

abbrev pub start : Direkey
start = record { cnt = λ i. 0; reports = [] }

-- Whatever interrupts come and whenever the tasklet and the timer run, the reports are those of
-- some keys that were handled in turn, each pressed first, then let go, and so on.
pub older_reports_alternate :
    {s : Halves Direkey}
    → Older.Reach do_timer start s
    → (ks : List ℕ) × (s.device.reports ≡ turns (λ i. false) ks)
older_reports_alternate path =
    let (ks, e) = Older.Reach-Handled do_timer start path in
    (ks, ap (λ d. d.reports) e ∙ handled-turns ks (λ i. false) start (λ i. refl))
