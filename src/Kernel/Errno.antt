-- ===== src/Kernel/Errno.antt =====
-- The values of errno.h that the drivers return, and the answers of kernel functions that return
-- an `int`: 0, or a negative error code.
use kernel_code.Prelude.{ℕ, ℤ, pos, negsuc, Bool, true, false}

abbrev pub eio : ℤ
eio = negsuc 4

abbrev pub eagain : ℤ
eagain = negsuc 10

abbrev pub enomem : ℤ
enomem = negsuc 11

abbrev pub ebusy : ℤ
ebusy = negsuc 15

abbrev pub einval : ℤ
einval = negsuc 21

abbrev pub enospc : ℤ
enospc = negsuc 27

-- `failed e` is the answer -(e + 1), also through `IS_ERR` and `PTR_ERR`.
pub data Outcome : Type 0 where
  done : Outcome
  failed : ℕ → Outcome

abbrev pub code : Outcome → ℤ
code done = pos 0
code (failed e) = negsuc e

abbrev pub is_done : Outcome → Bool
is_done done = true
is_done (failed e) = false
