-- ===== src/Kernel/Lock/Simple.antt =====
-- A mutex as a flag and a semaphore as a count: they meet the laws of `Lock`.
use kernel_code.Prelude.{ℕ, zero, suc, ◌+◌, refl, Bool, true, false, none, some}
use kernel_code.Kernel.Lock.{Lock}

-- `mutex_init`, `mutex_lock`, `mutex_unlock`
abbrev pub mutex : Lock
mutex = record {
  State = Bool;
  free = false;
  taken = true;
  try = elim [ true ↦ none | false ↦ some true ];
  leave = λ s. false;
  try-free = refl;
  try-taken = refl;
  leave-taken = refl;
}

-- `sema_init(sema, 1)`, `down`, `up`
abbrev pub semaphore : Lock
semaphore = record {
  State = ℕ;
  free = 1;
  taken = 0;
  try = elim [ zero ↦ none | suc n ↦ some n ];
  leave = λ n. n + 1;
  try-free = refl;
  try-taken = refl;
  leave-taken = refl;
}
