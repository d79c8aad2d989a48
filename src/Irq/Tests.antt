-- ===== src/Irq/Tests.antt =====
-- The key drivers at concrete inputs.
pub mod Touch
use kernel_code.Prelude.{◌≡◌, refl, true, false, [], ◌∷◌, pos, is_negative, if◌then◌else◌}
use kernel_code.Kernel.Errno.{done, failed}
use kernel_code.Kernel.World.{nothing_held, resource, irq, same}
use kernel_code.Kernel.Device.{Env}
use kernel_code.Kernel.Memory.Simple.{mapped}
use kernel_code.Kernel.Unwind.{all_granted}
use kernel_code.Kbuf.Script.{reply}
use kernel_code.Irq.Request.{with_irqs, request_irq_key_lem}
use kernel_code.Irq.Request
use kernel_code.Irq.Keys
use kernel_code.Irq.Keys.{State, start, set_at, key_read, do_key_irq_tp}
use kernel_code.Irq.Keys.Debounce.{
  interrupts, quiet, last_key_counts, read_after_burst, kbuf-parity, here, next, interrupted,
  expired, ran,
}
use kernel_code.Irq.InputKeys
use kernel_code.Irq.InputKeys.Reports
use kernel_code.Irq.InputKeys.Reports.{reports_alternate, init-exit_input_keys}

-- Key 2 bounces, and key 0 interrupts before.
last_key_counts_example :
    let t = quiet (interrupts (0 ∷ 2 ∷ 2 ∷ []) start) in
    (t.cnt ≡ set_at start.cnt 2 1)
    × (t.kbuf ≡ set_at start.kbuf 2 1)
    × (t.key_dnup_flag ≡ 1)
    × (t.timer.pending ≡ false)
    × (t.task.pending ≡ false)
last_key_counts_example = last_key_counts (0 ∷ 2 ∷ []) 2 start

abbrev pressed : State
pressed = Keys.run_tasklet (Keys.expire (do_key_irq_tp 1 start))

-- The interrupt of key 2 is refused.
abbrev no_irq_2 : Env
no_irq_2 r = if same r (resource irq 2) then failed 15 else done

-- Key 1 is pressed and let go.
abbrev let_go : InputKeys.State
let_go = InputKeys.run_tasklet (
    InputKeys.expire (
      InputKeys.do_key_irq_tp 1
        (InputKeys.run_tasklet (InputKeys.expire (InputKeys.do_key_irq_tp 1 InputKeys.start)))))

let_go-reports : let_go.reports ≡ (1, true) ∷ (1, false) ∷ []
unfolding InputKeys.run_tasklet InputKeys.expire InputKeys.do_key_irq_tp InputKeys.do_timer_key
    InputKeys.do_bh_key
let_go-reports = refl

let_go-Reach : Reports.Reach let_go
let_go-Reach =
    Reports.next
      (Reports.next
        (Reports.next
          (Reports.next
            (Reports.next (Reports.next Reports.here (Reports.interrupted 1)) Reports.expired)
            Reports.ran)
          (Reports.interrupted 1))
        Reports.expired)
      Reports.ran

reports_alternate_example :
    (Reports.alternates 1 false let_go.reports ≡ true)
    × (Reports.last_of 1 false let_go.reports ≡ InputKeys.is_down (let_go.cnt 1))
reports_alternate_example = reports_alternate let_go-Reach 1
