-- ===== src/Atomic/Older.antt =====
-- kernel_code_v1/lock/atomic/demo.c: as locks/atomic/demo.c, but the release always adds 1.
use kernel_code.Prelude.{ℕ, ◌+◌, ◌-◌, ◌<◌, ◌≤◌, ◌≡◌, ℤ, pos, if◌then◌else◌}
use kernel_code.Kernel.World.{World}
use kernel_code.Kernel.Device.{Env}
use kernel_code.Atomic
use kernel_code.Atomic.{increment, decrement, is_zero}
use kernel_code.Atomic.Exclusive.{one_minus}

-- `open_cnt_flg`, and how many processes are between the two accesses of a refused open, or have
-- the device open.
pub record Demo : Type 0 where
  pub open_cnt_flg : ℤ
  pub refused : ℕ
  pub opened : ℕ

abbrev pub start : Demo
start = record { open_cnt_flg = pos 1; refused = 0; opened = 0 }

unfoldable pub demo_open : Demo → Demo
demo_open s =
    let flag = decrement s.open_cnt_flg in
    if is_zero flag
    then record s { open_cnt_flg = flag; opened = s.opened + 1 }
    else record s { open_cnt_flg = flag; refused = s.refused + 1 }

-- `atomic_inc` and `return -EBUSY`
unfoldable pub return_busy : Demo → Demo
return_busy s = record s { open_cnt_flg = increment s.open_cnt_flg; refused = s.refused - 1 }

unfoldable pub demo_release : Demo → Demo
demo_release s = record s { open_cnt_flg = increment s.open_cnt_flg; opened = s.opened - 1 }

pub data Step (s : Demo) : Demo → Type 0 where
  opens : Step s (demo_open s)
  gives_up : 0 < s.refused → Step s (return_busy s)
  releases : 0 < s.opened → Step s (demo_release s)

pub data Reach : Demo → Type 0 where
  here : Reach start
  next : {s t : Demo} → Reach s → Step s t → Reach t

unfoldable pub init : Env → World → ℤ × World
init env w = Atomic.init env w

unfoldable pub exit : World → World
exit w = Atomic.exit w

record Inv (s : Demo) : Type 0 where
  counted : s.open_cnt_flg ≡ one_minus (s.refused + s.opened)
  one_owner : s.opened ≤ 1
