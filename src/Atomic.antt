-- ===== src/Atomic.antt =====
-- locks/atomic/demo.c: a device that one process at a time may open, guarded by an atomic counter.
pub mod Exclusive
pub mod Stuck
pub mod Older
mod Tests
use kernel_code.Prelude.{
  ℕ, zero, suc, ◌+◌, ◌-◌, ◌<◌, Bool, true, false, ℤ, pos, negsuc, if◌then◌else◌,
}
use kernel_code.Kernel.Errno.{done, failed, code}
use kernel_code.Kernel.World
use kernel_code.Kernel.World.{resource, misc, World, acquire}
use kernel_code.Kernel.Device.{Env}

-- `atomic_inc` and the subtraction of `atomic_sub_and_test(1, v)`
unfoldable pub increment : ℤ → ℤ
increment (pos n) = pos (suc n)
increment (negsuc zero) = pos 0
increment (negsuc (suc n)) = negsuc n

unfoldable pub decrement : ℤ → ℤ
decrement (pos zero) = negsuc 0
decrement (pos (suc n)) = pos n
decrement (negsuc n) = negsuc (suc n)

abbrev pub is_zero : ℤ → Bool
is_zero (pos zero) = true
is_zero _ = false

-- `open_flags`, and how many processes stand at each place between two accesses to it.
pub record Demo : Type 0 where
  pub open_flags : ℤ
  pub refused : ℕ  -- in `atomic_open`, before `atomic_inc`
  pub opened : ℕ  -- have the device open
  pub closing : ℕ  -- in `atomic_release`, before `atomic_inc`
  pub stuck : ℕ  -- have left `atomic_release` without `atomic_inc`

abbrev pub start : Demo
start = record { open_flags = pos 1; refused = 0; opened = 0; closing = 0; stuck = 0 }

-- `atomic_open`: subtract and test; then, where the test fails, add and return -EBUSY.
unfoldable pub try_open : Demo → Demo
try_open s =
    let flags = decrement s.open_flags in
    if is_zero flags
    then record s { open_flags = flags; opened = s.opened + 1 }
    else record s { open_flags = flags; refused = s.refused + 1 }

unfoldable pub return_busy : Demo → Demo
return_busy s = record s { open_flags = increment s.open_flags; refused = s.refused - 1 }

-- `atomic_release`: read and test, and add only where the value was 0.
unfoldable pub release : Demo → Demo
release s =
    if is_zero s.open_flags
    then record s { opened = s.opened - 1; closing = s.closing + 1 }
    else record s { opened = s.opened - 1; stuck = s.stuck + 1 }

unfoldable pub finish_release : Demo → Demo
finish_release s = record s { open_flags = increment s.open_flags; closing = s.closing - 1 }

-- One access to the counter by one of any number of processes.
pub data Step (s : Demo) : Demo → Type 0 where
  opens : Step s (try_open s)
  gives_up : 0 < s.refused → Step s (return_busy s)
  releases : 0 < s.opened → Step s (release s)
  closes : 0 < s.closing → Step s (finish_release s)

-- What is reached from `s`.
pub data From (s : Demo) : Demo → Type 0 where
  here : From s s
  next : {t u : Demo} → From s t → Step t u → From s u

unfoldable pub init : Env → World → ℤ × World
init env w = elim (env (resource misc 0)) [
  | failed e ↦ (code (failed e), w)
  | done ↦ (pos 0, acquire (resource misc 0) w)
]

unfoldable pub exit : World → World
exit w = World.release (resource misc 0) w
