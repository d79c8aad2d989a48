-- ===== src/Irq/Keys/Debounce.antt =====
-- What the process that reads the keys sees of their interrupts.
use kernel_code.Prelude.{
  ℕ, ◌+◌, ◌%◌, ◌^◌, ◌≡◌, refl, ap, true, false, List, [], ◌∷◌, ◌++◌, pos, arith,
}
use kernel_code.Kernel.Memory.{UserAccess}
use kernel_code.Kbuf.Script.{reply}
use kernel_code.Irq.Keys.{
  State, set_at, parity, start, do_key_irq_tp, do_timer_key, do_bh_key, expire, run_tasklet,
  key_read,
}

-- Interrupts one after another, each before the timer that the one before set has run out.
unfoldable pub interrupts : List ℕ → State → State
interrupts [] s = s
interrupts (dev ∷ devs) s = interrupts devs (do_key_irq_tp dev s)

interrupts-last :
    (devs : List ℕ) (k : ℕ) (s : State)
    → interrupts (devs ++ k ∷ []) s ≡ record s { timer = record { arg = k; pending = true } }
unfolding interrupts do_key_irq_tp
interrupts-last [] k s = refl
interrupts-last (dev ∷ devs) k s = interrupts-last devs k (do_key_irq_tp dev s)

-- The timer runs out, then the tasklet runs.
abbrev pub quiet : State → State
quiet s = run_tasklet (expire s)

-- However often a key bounces within the time of the timer, it is counted once: after any interrupts of
-- which the last is of key `k`, and the timer and the tasklet, the count and the state of key `k` have
-- moved on by one, those of all other keys, also of keys that interrupted before `k`, are as before,
-- the flag is set, and nothing is left to run.
pub last_key_counts :
    (devs : List ℕ) (k : ℕ) (s : State)
    → let t = quiet (interrupts (devs ++ k ∷ []) s) in
      let moved = (s.cnt k + 1) % 2 ^ 32 in
      (t.cnt ≡ set_at s.cnt k moved)
      × (t.kbuf ≡ set_at s.kbuf k (parity moved))
      × (t.key_dnup_flag ≡ 1)
      × (t.timer.pending ≡ false)
      × (t.task.pending ≡ false)
unfolding run_tasklet expire do_timer_key do_bh_key
last_key_counts devs k s = rw (interrupts-last devs k s) (refl, refl, refl, refl, refl)

module _ (user : UserAccess) where
  -- A read of 4 bytes that wakes after interrupts of which the last is of key `k`, the timer and
  -- the tasklet, and that can be copied, returns 4 with the states of the keys, of which only
  -- that of `k` has changed, and clears the flag.
  pub read_after_burst :
      (devs : List ℕ) (k room : ℕ) (s : State)
      → let states = set_at s.kbuf k (parity ((s.cnt k + 1) % 2 ^ 32)) in
        let bytes = states 0 ∷ states 1 ∷ states 2 ∷ states 3 ∷ [] in
        (user.copy_out room bytes).0 ≡ 0
        → let (r, t) = key_read user (λ v. quiet (interrupts (devs ++ k ∷ []) v)) room 4 s in
          (r ≡ reply (pos 4) bytes) × (t.key_dnup_flag ≡ 0)
  unfolding key_read
  read_after_burst devs k room s ok =
      let (counted, states_eq, flag, timer_off, task_off) = last_key_counts devs k s in
      let bytes_eq = ap (λ f. f 0 ∷ f 1 ∷ f 2 ∷ f 3 ∷ []) states_eq in
      rw bytes_eq (
        let states = set_at s.kbuf k (parity ((s.cnt k + 1) % 2 ^ 32)) in
        ground (arith, ok, user.out_all room (states 0 ∷ states 1 ∷ states 2 ∷ states 3 ∷ [])))

  -- One event of the driver.
  pub data Step (s : State) : State → Type 0 where
    interrupted : (dev : ℕ) → Step s (do_key_irq_tp dev s)
    expired : Step s (expire s)
    ran : Step s (run_tasklet s)
    read : (room cnt : ℕ) → Step s (key_read user (λ v. v) room cnt s).1

  pub data Reach : State → Type 0 where
    here : Reach start
    next : {s t : State} → Reach s → Step s t → Reach t

  do_bh_key-parity :
      (k : ℕ) (s : State)
      → ((i : ℕ) → s.kbuf i ≡ parity (s.cnt i))
      → (i : ℕ) → (do_bh_key k s).kbuf i ≡ parity ((do_bh_key k s).cnt i)
  unfolding do_bh_key
  do_bh_key-parity k s h i = ground (arith, h i)

  Step-parity :
      {s t : State}
      → Step s t
      → ((i : ℕ) → s.kbuf i ≡ parity (s.cnt i))
      → (i : ℕ) → t.kbuf i ≡ parity (t.cnt i)
  unfolding do_key_irq_tp expire do_timer_key run_tasklet key_read
  Step-parity (interrupted dev) h i = h i
  Step-parity {s} expired h i = ground (arith, h i)
  Step-parity {s} ran h i = ground (
    arith,
    h i,
    do_bh_key-parity s.task.arg (record s { task = record s.task { pending = false } }) h i,
  )
  Step-parity {s} (read room cnt) h i = ground (arith, h i)

  -- Whatever happens in whatever order, the state that a read shows of a key is the parity of
  -- its count, as a `char`.
  pub kbuf-parity : {s : State} → Reach s → (i : ℕ) → s.kbuf i ≡ parity (s.cnt i)
  kbuf-parity here i = refl
  kbuf-parity (next path step) i = Step-parity step (kbuf-parity path) i
