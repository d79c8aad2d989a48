-- ===== src/Kernel/Lock.antt =====
-- A sleeping lock of the kernel, for one holder: a `struct mutex`, or a `struct semaphore` that
-- starts at 1.
pub mod Simple
use kernel_code.Prelude.{◌≡◌, Option, none, some}

-- `try` is one attempt of `mutex_lock` or `down`: `none` as long as the process must sleep.
pub record Lock : Type 1 where
  pub State : Type 0
  pub free : State
  pub taken : State
  pub try : State → Option State
  pub leave : State → State
  pub try-free : try free ≡ some taken
  pub try-taken : try taken ≡ none
  pub leave-taken : leave taken ≡ free
