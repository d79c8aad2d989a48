-- ===== src/Irq/Halves/Older.antt =====
-- The order of the halves in kernel_code_v1/demo_ts, kernel_code_v1/keys and
-- kernel_code_v1/inputsubsys_keys: the interrupt function schedules the tasklet, the tasklet starts the
-- timer, and the function of the timer does the work.
use kernel_code.Prelude.{
  ℕ, ◌≡◌, refl, true, false, List, ◌∷◌, ◌++◌, [], Bool-cases, inl, inr, if◌then◌else◌,
}
use kernel_code.Irq.Halves.{Halves, idle, Handled, one_more}

module _ {ℓ} {D : Type ℓ} where
  unfoldable pub do_4keys : (arg : ℕ) → Halves D → Halves D
  do_4keys arg s = record s { task = record { arg = arg; pending = true } }

  unfoldable pub do_4key_bh : (arg : ℕ) → Halves D → Halves D
  do_4key_bh arg s = record s { timer = record { arg = arg; pending = true } }

  unfoldable pub run_tasklet : Halves D → Halves D
  run_tasklet s =
      if s.task.pending
      then do_4key_bh s.task.arg (record s { task = record s.task { pending = false } })
      else s

  unfoldable pub expire : (ℕ → D → D) → Halves D → Halves D
  expire work s =
      if s.timer.pending
      then record s {
        device = work s.timer.arg s.device;
        timer = record s.timer { pending = false };
      }
      else s

  -- Interrupts one after another, before the tasklet runs.
  abbrev pub interrupts : List ℕ → Halves D → Halves D
  interrupts [] s = s
  interrupts (k ∷ ks) s = interrupts ks (do_4keys k s)

  pub interrupts-last :
      (ks : List ℕ) (k : ℕ) (s : Halves D)
      → interrupts (ks ++ k ∷ []) s ≡ record s { task = record { arg = k; pending = true } }
  unfolding do_4keys
  interrupts-last [] k s = refl
  interrupts-last (k' ∷ ks) k s = interrupts-last ks k (do_4keys k' s)

  -- The tasklet and then the timer serve the last interrupt before the tasklet runs, whatever was pending,
  -- and nothing is pending then.
  pub last_key_served :
      (work : ℕ → D → D) (ks : List ℕ) (k : ℕ) (s : Halves D)
      → expire work (run_tasklet (interrupts (ks ++ k ∷ []) s)) ≡ record {
        device = work k s.device;
        timer = record { arg = k; pending = false };
        task = record { arg = k; pending = false };
      }
  unfolding run_tasklet do_4key_bh expire
  last_key_served work ks k s = rw (interrupts-last ks k s) refl

  pub data Step (work : ℕ → D → D) (s : Halves D) : Halves D → Type ℓ where
    interrupted : (arg : ℕ) → Step work s (do_4keys arg s)
    ran : Step work s (run_tasklet s)
    expired : Step work s (expire work s)

  pub data Reach (work : ℕ → D → D) (start : D) : Halves D → Type ℓ where
    here : Reach work start (idle start)
    next : {s t : Halves D} → Reach work start s → Step work s t → Reach work start t

  run_tasklet-device : (s : Halves D) → (run_tasklet s).device ≡ s.device
  unfolding run_tasklet do_4key_bh
  run_tasklet-device s = elim (Bool-cases s.task.pending) [
    | inl runs ↦ rw runs refl
    | inr waits ↦ rw waits refl
  ]

  Step-Handled :
      (work : ℕ → D → D) (start : D) {s t : Halves D}
      → Step work s t
      → Handled work start s.device
      → Handled work start t.device
  unfolding do_4keys expire
  Step-Handled work start (interrupted arg) h = h
  Step-Handled work start {s} ran h = rw (run_tasklet-device s) h
  Step-Handled work start {s} expired h = elim (Bool-cases s.timer.pending) [
    | inl runs ↦ rw runs (one_more work s.timer.arg h)
    | inr waits ↦ rw waits h
  ]

  -- In whatever order interrupts come, the tasklet runs and the timer runs out, the device is what
  -- it is after some keys were handled one after another.
  pub Reach-Handled :
      (work : ℕ → D → D) (start : D) {s : Halves D}
      → Reach work start s
      → Handled work start s.device
  Reach-Handled work start here = ([], refl)
  Reach-Handled work start (next path step) =
      Step-Handled work start step (Reach-Handled work start path)
