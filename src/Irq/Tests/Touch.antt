-- ===== src/Irq/Tests/Touch.antt =====
-- The touch screens and the older drivers of the keys at concrete inputs.
use kernel_code.Prelude.{List, ◌++◌, false, arith, ◌≡◌, refl, [], ◌∷◌, ℕ, pos}
use kernel_code.Kernel.Memory.Simple.{mapped}
use kernel_code.Kbuf.Script.{reply}
use kernel_code.Irq.Halves
use kernel_code.Irq.Halves.{Halves, handled, idle, Reach, here, next, interrupted, expired, ran}
use kernel_code.Irq.Halves.Older as Order
use kernel_code.Irq.Touch
use kernel_code.Irq.Touch.{Touch, start, at, abs_x, abs_y, pressure, btn_touch, sync}
use kernel_code.Irq.Touch.Frames.{Frame, shown, downs, decode, nothing_read}
use kernel_code.Irq.Touch.OnePoint
use kernel_code.Irq.Touch.FivePoint
use kernel_code.Irq.Touch.Shown.{Shows, touch_frames, older_burst_shown}
use kernel_code.Irq.Older
use kernel_code.Irq.Older.Mt
use kernel_code.Irq.Older.Ts
use kernel_code.Irq.Older.Laws.{key, read, run, read_shows_parities}

-- One key is pressed on the screen of five points.
abbrev five : ℕ → Touch → Touch
five = Touch.do_bh_key FivePoint.format

abbrev touched : Halves Touch
touched =
    Halves.run_tasklet five
      (Halves.expire (Halves.do_key_irq_tp 2 (idle (start FivePoint.mt_axis))))

touched-Reach : Reach five (start FivePoint.mt_axis) touched
touched-Reach = next (next (next here (interrupted 2)) expired) ran

touch_frames_example : Shows FivePoint.format FivePoint.mt_axis touched.device
touch_frames_example = touch_frames FivePoint.format FivePoint.mt_axis refl touched-Reach

-- Two keys are handled by the screen of one point.
two-reports :
    (handled OnePoint.do_bh_key (0 ∷ 0 ∷ []) (start OnePoint.mt_axis)).reports
    ≡ abs_x 201 ∷ abs_y 301 ∷ pressure 1 ∷ sync ∷ pressure 0 ∷ sync ∷ []
unfolding OnePoint.do_bh_key Touch.do_bh_key
two-reports = refl

older-reports :
    (Ts.do_timer 3 (start Ts.ares)).reports
    ≡ abs_x 201 ∷ abs_y 301 ∷ pressure 1 ∷ btn_touch 1 ∷ sync ∷ []
unfolding Ts.do_timer Touch.do_bh_key
older-reports = refl

abbrev three : ℕ → Touch → Touch
three = Touch.do_bh_key Mt.format

abbrev older_touched : Halves Touch
older_touched = Order.expire three (Order.run_tasklet (Order.do_4keys 2 (idle (start Mt.ares))))

older_touched-Reach : Order.Reach three (start Mt.ares) older_touched
older_touched-Reach =
    Order.next (Order.next (Order.next Order.here (Order.interrupted 2)) Order.ran) Order.expired

-- Three keys interrupt after that, and the last of them is let go.
older_burst_shown_example :
    let t =
      Order.expire three (Order.run_tasklet (Order.interrupts (0 ∷ 1 ∷ 2 ∷ []) older_touched)) in
    let frames : List ℕ → List Frame = λ ks. shown Mt.format Mt.ares 0 (downs (λ i. false) ks) in
    (ks : List ℕ) × (older_touched.device ≡ handled three ks (start Mt.ares))
    × (decode nothing_read older_touched.device.reports ≡ frames ks)
    × (decode nothing_read t.device.reports ≡ frames (ks ++ 2 ∷ []))
    × (t.timer.pending ≡ false)
    × (t.task.pending ≡ false)
older_burst_shown_example =
    older_burst_shown Mt.format Mt.ares refl (0 ∷ 1 ∷ []) 2 older_touched-Reach

read_shows_parities_example :
    let acts = key 2 ∷ read 4 4 ∷ key 1 ∷ key 2 ∷ [] in
    let (r, t) = Older.key_read mapped (λ v. v) 4 4 (run mapped acts Older.start) in
    (r ≡ reply (pos 4) (48 ∷ 49 ∷ 48 ∷ 48 ∷ [])) × (t.dnup_flg ≡ 0)
read_shows_parities_example =
    read_shows_parities mapped (key 2 ∷ read 4 4 ∷ key 1 ∷ key 2 ∷ []) 4 (omega arith) refl
