-- ===== src/Laomits/Tests.antt =====
-- The touch screen on the I2C bus at concrete inputs.
use kernel_code.Prelude.{◌≡◌, refl, false, [], ◌∷◌, ◌++◌, none, arith, if◌then◌else◌}
use kernel_code.Kernel.Errno.{done, failed}
use kernel_code.Kernel.World.{nothing_held, resource, gpio, input_device, same}
use kernel_code.Kernel.Device.{Env}
use kernel_code.Irq.Touch.{abs_x, abs_y, sync}
use kernel_code.Laomits.{Ft5206, start, interrupt, run_work, report, ft5206_probe, do_ft5206_top}
use kernel_code.Laomits.Laws.{
  message, report-message, Reach, here, next, interrupted, touch_is_reported,
  short_receive_is_final,
}
use kernel_code.Laomits.Setup.{Probed, probe_crashes_or_unwinds, probe_crashes}

report-message_example : report (message 2 3 799 479 5 0 0 1 (9 ∷ [])) ≡ abs_x 799 ∷ abs_y 479 ∷ []
report-message_example =
    report-message 2 3 799 479 5 0 0 1 (9 ∷ []) (omega arith) (omega arith) (omega arith)
      (omega arith)

abbrev shut : Ft5206
shut = interrupt start

shut-Reach : Reach start shut
shut-Reach = next here interrupted

touch_is_reported_example :
    run_work (31, message 2 3 799 479 5 0 0 1 []) (interrupt start)
    ≡ record start { reports = report (message 2 3 799 479 5 0 0 1 []) ++ sync ∷ [] }
touch_is_reported_example = touch_is_reported (message 2 3 799 479 5 0 0 1 []) here refl

-- The bus answers an error, and then the screen is touched.
abbrev deaf : Ft5206
deaf = interrupt (run_work (5, []) shut)

deaf-Reach : Reach (run_work (5, []) shut) deaf
deaf-Reach = next here interrupted

short_receive_is_final_example :
    (deaf.disabled ≡ 1) × (deaf.work_pending ≡ false) × (deaf.reports ≡ [])
unfolding interrupt do_ft5206_top
short_receive_is_final_example =
    short_receive_is_final 5 [] shut-Reach refl (λ e. absurd (omega (arith, e))) deaf-Reach

-- The pin is refused.
abbrev no_gpio : Env
no_gpio r = if same r (resource gpio 0) then failed 15 else done

probe_crashes_or_unwinds_example : Probed no_gpio nothing_held (ft5206_probe no_gpio nothing_held)
probe_crashes_or_unwinds_example = probe_crashes_or_unwinds no_gpio nothing_held

-- There is no memory for the input device.
abbrev no_device : Env
no_device r = if same r (resource input_device 0) then failed 11 else done

no_device-crashes : ft5206_probe no_device nothing_held ≡ none
no_device-crashes = probe_crashes no_device nothing_held refl refl
