-- ===== src/Spin/Processor/Laws.antt =====
-- An interrupt that prints on top of a process.
use kernel_code.Prelude.{
  ◌%◌, ◌^◌, [], ◌∷◌, ◌++◌, ◌||◌, ltb, ℕ, zero, suc, ◌+◌, ◌*◌, ◌≡◌, refl, ap, ◌∙◌, true, false, none,
  some, List, arith, if◌then◌else◌, replicate, append-nil, append_assoc, sym,
}
use kernel_code.Kernel.Lock.{Lock}
use kernel_code.Spin.{Text, Pc, locking, printing, Shared, print_string}
use kernel_code.Spin.Invariant.{in_section}
use kernel_code.Spin.Groups.{numbered, number_after}
use kernel_code.Spin.Laws.{locking_got}
use kernel_code.Spin.Processor.{Processor, returned, handler_holds, is_running, step, steps, Reach}
use kernel_code.Spin.Processor.Invariant.{Reach-Inv}

module _ (cnt : ℕ) (lock : Lock) where
  -- The processor after an interrupt function that left the process at `p`.
  abbrev resumed : ℕ → lock.State → List (ℕ × Text) → Pc → Processor lock.State
  resumed g l log p = record {
    shared = record { g_count = g; lock = l; log = log };
    process = p;
    handler = none;
  }

  line_printed :
      (n : ℕ) (str : Text) (k : ℕ) (m : Shared lock.State) (p : Pc)
      → ltb k cnt ≡ true
      → steps cnt lock
          (suc (suc n))
          (record { shared = m; process = p; handler = some (printing str k) })
        ≡ steps cnt lock n (record {
          shared = record m {
            log = m.log ++ (m.g_count, str) ∷ [];
            g_count = (m.g_count + 1) % 2 ^ 32;
          };
          process = p;
          handler = some (printing str (k + 1));
        })
  unfolding steps step print_string
  line_printed n str k m p more = rw more refl

  all_printed :
      (str : Text) (k : ℕ) (m : Shared lock.State) (p : Pc)
      → ltb k cnt ≡ false
      → steps cnt lock 1 (record { shared = m; process = p; handler = some (printing str k) })
        ≡ record { shared = record m { lock = lock.leave m.lock }; process = p; handler = none }
  unfolding steps step print_string
  all_printed str k m p done = rw done refl

  -- The lines that are left, and the unlock.
  handler_ends :
      (left k : ℕ) (str : Text) (m : Shared lock.State) (p : Pc)
      → k + left ≡ cnt
      → let strs = replicate left str in
        steps cnt lock
          (2 * left + 1)
          (record { shared = m; process = p; handler = some (printing str k) })
        ≡ resumed
            (number_after m.g_count strs)
            (lock.leave m.lock)
            (m.log ++ numbered m.g_count strs)
            p
  handler_ends zero k str m p e =
      all_printed str k m p (ground arith)
      ∙ ap (λ log. resumed m.g_count (lock.leave m.lock) log p) (sym (append-nil m.log))
  handler_ends (suc left) k str m p e =
      let twice : 2 * suc left + 1 ≡ suc (suc (2 * left + 1)) = omega arith in
      let lines : k + 1 + left ≡ cnt = omega (arith, e) in
      let strs = replicate left str in
      let g = (m.g_count + 1) % 2 ^ 32 in
      rw (twice, line_printed (2 * left + 1) str k m p (ground arith))
        (handler_ends left (k + 1) str
            (record m { log = m.log ++ (m.g_count, str) ∷ []; g_count = g }) p lines
          ∙ ap (λ log. resumed (number_after g strs) (lock.leave m.lock) log p)
              (append_assoc m.log ((m.g_count, str) ∷ []) (numbered g strs)))

module _ (cnt : ℕ) (lock : Lock) (str : Text) (m : Shared lock.State) (p : Pc) where
  abbrev at_lock : Processor lock.State
  at_lock = record { shared = m; process = p; handler = some (locking str) }

  lock_taken :
      (n : ℕ)
      → m.lock ≡ lock.free
      → steps cnt lock (suc n) at_lock
        ≡ steps cnt lock n (record {
          shared = record m { lock = lock.taken };
          process = p;
          handler = some (printing str 0);
        })
  unfolding steps step
  lock_taken n free =
      ap (λ r. steps cnt lock n (record { shared = r.0; process = p; handler = returned r.1 }))
        (locking_got cnt 0 lock str m (ap lock.try free ∙ lock.try-free))

-- On a processor that alone uses the lock, an interrupt does not wait for it: when its function begins to
-- print, in whatever state that the processor reaches, it is over after two steps for each of its `cnt`
-- lines and two more. It has then printed these lines, numbered in turn with 32 bits, the process is where
-- it was interrupted, and the lock is free.
pub interrupt_returns :
    (cnt : ℕ) (lock : Lock) {c : Processor lock.State} (str : Text)
    → Reach cnt lock c
    → c.handler ≡ some (locking str)
    → let strs = replicate cnt str in
      steps cnt lock (2 * cnt + 2) c ≡ record {
        shared = record {
          g_count = number_after c.shared.g_count strs;
          lock = lock.free;
          log = c.shared.log ++ numbered c.shared.g_count strs;
        };
        process = c.process;
        handler = none;
      }
interrupt_returns cnt lock {c} str path begins =
    let v = Reach-Inv cnt lock path in
    let here_now : c ≡ at_lock cnt lock str c.shared c.process =
      ap (λ h. record c { handler = h }) begins in
    let outside : in_section c.process ≡ false = v.shut_off (ap is_running begins) in
    let free : c.shared.lock ≡ lock.free =
      v.held.0
      ∙ ap (λ b. if b || handler_holds c.handler then lock.taken else lock.free) outside
      ∙ ap (λ h. if handler_holds h then lock.taken else lock.free) begins in
    let strs = replicate cnt str in
    let twice : 2 * cnt + 2 ≡ suc (2 * cnt + 1) = omega arith in
    ap (λ d. steps cnt lock (2 * cnt + 2) d) here_now
    ∙ ap (λ n. steps cnt lock n (at_lock cnt lock str c.shared c.process)) twice
    ∙ lock_taken cnt lock str c.shared c.process (2 * cnt + 1) free
    ∙ handler_ends cnt lock cnt 0 str (record c.shared { lock = lock.taken }) c.process
        (omega arith)
    ∙ ap
        (λ l.
          resumed cnt lock (number_after c.shared.g_count strs) l
            (c.shared.log ++ numbered c.shared.g_count strs) c.process)
        lock.leave-taken
