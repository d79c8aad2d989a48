-- ===== src/App/Threads/Tests.antt =====
-- The two threads, one round each.
use kernel_code.Prelude.{ℕ, zero, suc, ◌≡◌, refl, arith}
use kernel_code.Kernel.Lock.Simple.{mutex}
use kernel_code.App.Threads.{
  System, step_up, step_down, ups, downs, start, Reach, here, next, do_thread_fool0,
  do_thread_fool1, thread_step,
}
use kernel_code.App.Threads.Laws.{threads_cancel}

abbrev ups_then : ℕ → System 1 mutex → System 1 mutex
ups_then zero s = s
ups_then (suc n) s = step_up 1 mutex (ups_then n s)

abbrev downs_then : ℕ → System 1 mutex → System 1 mutex
downs_then zero s = s
downs_then (suc n) s = step_down 1 mutex (downs_then n s)

ups_then-Reach :
    (n : ℕ) {s : System 1 mutex} → Reach 1 mutex 9527 s → Reach 1 mutex 9527 (ups_then n s)
ups_then-Reach zero path = path
ups_then-Reach (suc n) path = next (ups_then-Reach n path) ups

downs_then-Reach :
    (n : ℕ) {s : System 1 mutex} → Reach 1 mutex 9527 s → Reach 1 mutex 9527 (downs_then n s)
downs_then-Reach zero path = path
downs_then-Reach (suc n) path = next (downs_then-Reach n path) downs

-- The second thread begins, and waits, while the first holds the lock.
abbrev ended : System 1 mutex
ended = downs_then 6 (ups_then 4 (downs_then 2 (ups_then 3 (start 1 mutex 9527))))

ended-Reach : Reach 1 mutex 9527 ended
ended-Reach = downs_then-Reach 6 (ups_then-Reach 4 (downs_then-Reach 2 (ups_then-Reach 3 here)))

threads_cancel_example : ended.shared.var ≡ 9527
unfolding do_thread_fool0 do_thread_fool1 thread_step
threads_cancel_example = threads_cancel 1 9527 mutex (omega arith) ended-Reach refl refl
