-- ===== src/Irq/Older/Mt.antt =====
-- kernel_code_v1/demo_ts/mt.c: the keys as a touch screen of three points. Where a function of the driver is that of
-- kernel_code_v1/inputsubsys_keys/key.c or kernel_code_v1/keys/key.c, word for word, it is defined as that.
use kernel_code.Prelude.{ℕ, true, List, [], ◌∷◌, ℤ}
use kernel_code.Kernel.World.{World}
use kernel_code.Kernel.Device.{Env}
use kernel_code.Irq.Halves.{Halves}
use kernel_code.Irq.Halves.Older as Order
use kernel_code.Irq.Touch
use kernel_code.Irq.Touch.{Tspos, at, Format, Touch}
use kernel_code.Irq.Older
use kernel_code.Irq.Older.InputKeys

abbrev pub ares : List Tspos
ares = at 200 300 ∷ at 300 400 ∷ at 400 440 ∷ []

abbrev pub format : Format
format = record { multi = true; button = true }

unfoldable pub do_timer : ℕ → Touch → Touch
do_timer k s = Touch.do_bh_key format k s

unfoldable pub do_4key_bh : (arg : ℕ) → Halves Touch → Halves Touch
do_4key_bh arg s = Order.do_4key_bh arg s

unfoldable pub do_4keys : (arg : ℕ) → Halves Touch → Halves Touch
do_4keys arg s = Order.do_4keys arg s

unfoldable pub register_4keys : Env → World → ℤ × World
register_4keys env w = Older.register_4keys env w

unfoldable pub unregister_4keys : World → World
unregister_4keys w = Older.unregister_4keys w

unfoldable pub init : Env → World → ℤ × World
init env w = InputKeys.init env w

unfoldable pub exit : World → World
exit w = InputKeys.exit w
