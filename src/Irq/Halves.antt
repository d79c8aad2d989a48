-- ===== src/Irq/Halves.antt =====
-- The halves of the interrupt handling that input/1point_ts/key.c, input/5point_mt/key.c and the older
-- drivers of the keys share: an interrupt function, a timer and a tasklet, of which one does the
-- work. `D` is the data of the driver, `work` what the last half does with it for a key.
pub mod Older
use kernel_code.Prelude.{
  ℕ, ◌≡◌, refl, sym, ap, ◌∙◌, true, false, List, [], ◌∷◌, ◌++◌, Bool-cases, inl, inr, if◌then◌else◌,
}
use kernel_code.Irq.Keys.{Deferred}

pub record Halves {ℓ} (D : Type ℓ) : Type ℓ where
  pub device : D
  pub timer : Deferred
  pub task : Deferred

abbrev pub idle {ℓ} : {D : Type ℓ} → D → Halves D
idle d = record {
  device = d;
  timer = record { arg = 0; pending = false };
  task = record { arg = 0; pending = false };
}

-- What the device is after the keys of the list were handled one after another.
abbrev pub handled {ℓ} : {D : Type ℓ} → (ℕ → D → D) → List ℕ → D → D
handled work [] d = d
handled work (k ∷ ks) d = handled work ks (work k d)

pub handled-append {ℓ} :
    {D : Type ℓ} (work : ℕ → D → D) (ks : List ℕ) (k : ℕ) (d : D)
    → handled work (ks ++ k ∷ []) d ≡ work k (handled work ks d)
handled-append work [] k d = refl
handled-append work (k' ∷ ks) k d = handled-append work ks k (work k' d)

module _ {ℓ} {D : Type ℓ} where
  -- The interrupt function sets the argument of the timer and starts it; one timer serves all keys.
  unfoldable pub do_key_irq_tp : (dev : ℕ) → Halves D → Halves D
  do_key_irq_tp dev s = record s { timer = record { arg = dev; pending = true } }

  -- The function of the timer schedules the tasklet.
  unfoldable pub do_timer_key : (arg : ℕ) → Halves D → Halves D
  do_timer_key arg s = record s { task = record { arg = arg; pending = true } }

  unfoldable pub expire : Halves D → Halves D
  expire s =
      if s.timer.pending
      then do_timer_key s.timer.arg (record s { timer = record s.timer { pending = false } })
      else s

  -- The tasklet does the work.
  unfoldable pub run_tasklet : (ℕ → D → D) → Halves D → Halves D
  run_tasklet work s =
      if s.task.pending
      then record s { device = work s.task.arg s.device; task = record s.task { pending = false } }
      else s

  pub data Step (work : ℕ → D → D) (s : Halves D) : Halves D → Type ℓ where
    interrupted : (dev : ℕ) → Step work s (do_key_irq_tp dev s)
    expired : Step work s (expire s)
    ran : Step work s (run_tasklet work s)

  pub data Reach (work : ℕ → D → D) (start : D) : Halves D → Type ℓ where
    here : Reach work start (idle start)
    next : {s t : Halves D} → Reach work start s → Step work s t → Reach work start t

  -- The keys of a list were handled since `start`, one after another.
  abbrev pub Handled : (ℕ → D → D) → D → D → Type ℓ
  Handled work start d = (ks : List ℕ) × (d ≡ handled work ks start)

  pub one_more :
      (work : ℕ → D → D) {start d : D} (k : ℕ)
      → Handled work start d
      → Handled work start (work k d)
  one_more work {start = start} k (ks, e) =
      (ks ++ k ∷ [], ap (work k) e ∙ sym (handled-append work ks k start))

  expire-device : (s : Halves D) → (expire s).device ≡ s.device
  unfolding expire do_timer_key
  expire-device s = elim (Bool-cases s.timer.pending) [
    | inl runs ↦ rw runs refl
    | inr waits ↦ rw waits refl
  ]

  Step-Handled :
      (work : ℕ → D → D) (start : D) {s t : Halves D}
      → Step work s t
      → Handled work start s.device
      → Handled work start t.device
  unfolding do_key_irq_tp run_tasklet
  Step-Handled work start (interrupted dev) h = h
  Step-Handled work start {s} expired h = rw (expire-device s) h
  Step-Handled work start {s} ran h = elim (Bool-cases s.task.pending) [
    | inl runs ↦ rw runs (one_more work s.task.arg h)
    | inr waits ↦ rw waits h
  ]

  -- In whatever order interrupts come, the timer runs out and the tasklet runs, the device is what
  -- it is after some keys were handled one after another.
  pub Reach-Handled :
      (work : ℕ → D → D) (start : D) {s : Halves D}
      → Reach work start s
      → Handled work start s.device
  Reach-Handled work start here = ([], refl)
  Reach-Handled work start (next path step) =
      Step-Handled work start step (Reach-Handled work start path)
