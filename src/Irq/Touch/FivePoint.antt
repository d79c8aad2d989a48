-- ===== src/Irq/Touch/FivePoint.antt =====
-- input/5point_mt/key.c: the keys as a touch screen of five points. Where a function of the driver is that of input/keys/key.c
-- or irq/request_irq/demo.c, word for word, it is defined as that.
use kernel_code.Prelude.{ℕ, true, false, List, [], ◌∷◌, ℤ}
use kernel_code.Kernel.World.{World}
use kernel_code.Kernel.Device.{Env}
use kernel_code.Irq
use kernel_code.Irq.InputKeys
use kernel_code.Irq.Halves
use kernel_code.Irq.Halves.{Halves}
use kernel_code.Irq.Touch
use kernel_code.Irq.Touch.{Tspos, at, Format, Touch}

abbrev pub mt_axis : List Tspos
mt_axis = at 200 300 ∷ at 159 299 ∷ at 12 33 ∷ at 66 79 ∷ at 97 354 ∷ []

abbrev pub format : Format
format = record { multi = true; button = false }

unfoldable pub do_bh_key : ℕ → Touch → Touch
do_bh_key idx s = Touch.do_bh_key format idx s

unfoldable pub do_timer_key : (arg : ℕ) → Halves Touch → Halves Touch
do_timer_key arg s = Halves.do_timer_key arg s

unfoldable pub do_key_irq_tp : (dev : ℕ) → Halves Touch → Halves Touch
do_key_irq_tp dev s = Halves.do_key_irq_tp dev s

unfoldable pub free_irq_key : World → World
free_irq_key w = Irq.free_irq_key w

unfoldable pub request_irq_key : Env → World → ℤ × World
request_irq_key env w = Irq.request_irq_key env w

unfoldable pub init : Env → World → ℤ × World
init env w = InputKeys.init env w

unfoldable pub exit : World → World
exit w = InputKeys.exit w
