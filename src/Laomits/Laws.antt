-- ===== src/Laomits/Laws.antt =====
-- What the touch screen on the I2C bus reports, and when it is dead.
use kernel_code.Prelude.{
  ℕ, ◌+◌, ◌*◌, ◌/◌, ◌<◌, ◌%◌, ◌^◌, ◌≡◌, ◌≢◌, refl, ◌∙◌, ◌⊎◌, inl, inr, true, false, List, [], ◌∷◌,
  ◌++◌, arith, ◌==◌, Bool-cases, if◌then◌else◌,
}
use kernel_code.Irq.Touch.{abs_x, abs_y, pressure, btn_touch, sync}
use kernel_code.Laomits.{Ft5206, start, do_ft5206_top, do_ft5206_bh, report, interrupt, run_work}

-- A message of the controller: three bytes, the event, two bits that are not looked at and the high bits
-- of x in one byte, the low bits of x, the high bits of y under four bits that are not looked at, the low
-- bits of y, and the rest.
abbrev pub message : (event spare x y id : ℕ) → (a b c : ℕ) → List ℕ → List ℕ
message event spare x y id a b c rest =
    a
    ∷ b
    ∷ c
    ∷ (event * 2 ^ 6 + spare * 2 ^ 4 + x / 2 ^ 8)
    ∷ (x % 2 ^ 8)
    ∷ (id * 2 ^ 4 + y / 2 ^ 8)
    ∷ (y % 2 ^ 8)
    ∷ rest

-- Every position of 12 bits comes through: event 2 reports it, event 0 a touch, event 1 the end of one,
-- and event 3 nothing, whatever the other bits and bytes of the message are.
pub report-message :
    (event spare x y id a b c : ℕ) (rest : List ℕ)
    → event < 4
    → spare < 4
    → x < 2 ^ 12
    → y < 2 ^ 12
    → report (message event spare x y id a b c rest) ≡ (
        if event == 0
        then pressure 1 ∷ btn_touch 1 ∷ []
        else if event == 1
        then pressure 0 ∷ btn_touch 0 ∷ []
        else if event == 2
        then abs_x x ∷ abs_y y ∷ []
        else [])
unfolding report
report-message event spare x y id a b c rest he hs hx hy =
    let third = event * 2 ^ 6 + spare * 2 ^ 4 + x / 2 ^ 8 in
    let ev : third / 2 ^ 6 % 4 ≡ event = omega arith in
    let x_eq : third % 16 * 2 ^ 8 + x % 2 ^ 8 ≡ x = omega arith in
    let y_eq : (id * 2 ^ 4 + y / 2 ^ 8) % 16 * 2 ^ 8 + y % 2 ^ 8 ≡ y = omega arith in
    rw (ev, x_eq, y_eq) refl

-- The interrupt comes, or the work runs with what it receives.
pub data Step (s : Ft5206) : Ft5206 → Type 0 where
  interrupted : Step s (interrupt s)
  worked : (received : ℕ × List ℕ) → Step s (run_work received s)

pub data Reach (from : Ft5206) : Ft5206 → Type 0 where
  here : Reach from from
  next : {s t : Ft5206} → Reach from s → Step s t → Reach from t

-- The interrupt is let in and no work is to run; it is shut off until the work runs; or it is shut off
-- and no work is to run.
pub data Phase : Type 0 where
  listening handling dead : Phase

abbrev pub Phase-of : Phase → Ft5206 → Type 0
Phase-of listening s = (s.disabled ≡ 0) × (s.work_pending ≡ false)
Phase-of handling s = (s.disabled ≡ 1) × (s.work_pending ≡ true)
Phase-of dead s = (s.disabled ≡ 1) × (s.work_pending ≡ false)

dead_stays : {s t : Ft5206} → Step s t → Phase-of dead s → t ≡ s
unfolding interrupt run_work
dead_stays interrupted (shut, idle) = rw shut refl
dead_stays (worked received) (shut, idle) = rw idle refl

Step-phase : {s t : Ft5206} (p : Phase) → Step s t → Phase-of p s → (q : Phase) × Phase-of q t
unfolding interrupt do_ft5206_top run_work do_ft5206_bh
Step-phase listening interrupted (shut, idle) = (handling, ground arith)
Step-phase listening (worked received) (shut, idle) = (listening, ground arith)
Step-phase handling interrupted (shut, idle) = (handling, ground arith)
Step-phase handling (worked (ret, regval)) (shut, idle) = elim (Bool-cases (ret == 31)) [
  | inl all ↦ (listening, ground arith)
  | inr short ↦ (dead, ground arith)
]
Step-phase dead step v = (dead, rw (dead_stays step v) v)

Reach-phase : {s t : Ft5206} → Reach s t → (p : Phase) → Phase-of p s → (q : Phase) × Phase-of q t
Reach-phase here p v = (p, v)
Reach-phase (next path step) p v = let (q, u) = Reach-phase path p v in Step-phase q step u

pub dead_is_final : {s t : Ft5206} → Phase-of dead s → Reach s t → t ≡ s
dead_is_final v here = refl
dead_is_final v (next path step) = let e = dead_is_final v path in dead_stays step (rw e v) ∙ e

balanced :
    (s : Ft5206) (p : Phase)
    → Phase-of p s
    → ((s.disabled ≡ 0) × (s.work_pending ≡ false)) ⊎ (s.disabled ≡ 1)
balanced s listening v = inl v
balanced s handling (shut, busy) = inr shut
balanced s dead (shut, idle) = inr shut

-- In every reachable state the interrupt was shut off at most once more than it was let in, and while
-- it is let in no work is to run.
pub irq_balanced :
    {s : Ft5206} → Reach start s → ((s.disabled ≡ 0) × (s.work_pending ≡ false)) ⊎ (s.disabled ≡ 1)
irq_balanced {s} path = let (p, v) = Reach-phase path listening (refl, refl) in balanced s p v

is_idle : {s : Ft5206} → Reach start s → s.disabled ≡ 0 → s.work_pending ≡ false
is_idle path open_irq = elim (irq_balanced path) [
  | inl v ↦ v.1
  | inr shut ↦ absurd (omega (arith, shut, open_irq))
]

is_shut : {s : Ft5206} → Reach start s → s.work_pending ≡ true → s.disabled ≡ 1
is_shut path busy = elim (irq_balanced path) [ inl v ↦ cc (v.1, busy) | inr shut ↦ shut ]

-- From a reachable state in which the interrupt is let in: an interrupt and a work that receives all 31
-- bytes report the message and one frame end, and the interrupt is let in again.
pub touch_is_reported :
    {s : Ft5206} (regval : List ℕ)
    → Reach start s
    → s.disabled ≡ 0
    → run_work (31, regval) (interrupt s)
      ≡ record s { reports = s.reports ++ report regval ++ sync ∷ [] }
unfolding interrupt do_ft5206_top run_work do_ft5206_bh
touch_is_reported {s} regval path open_irq = rw (open_irq, is_idle path open_irq) refl

short_receive :
    {s : Ft5206} (ret : ℕ) (regval : List ℕ)
    → s.work_pending ≡ true
    → ret ≢ 31
    → run_work (ret, regval) s ≡ record s { work_pending = false }
unfolding run_work do_ft5206_bh
short_receive ret regval busy short = ground arith

-- Once a work receives fewer than 31 bytes, or an error, the interrupt stays shut off: whatever comes
-- later, nothing changes and nothing is reported any more.
pub short_receive_is_final :
    {s t : Ft5206} (ret : ℕ) (regval : List ℕ)
    → Reach start s
    → s.work_pending ≡ true
    → ret ≢ 31
    → Reach (run_work (ret, regval) s) t
    → (t.disabled ≡ 1) × (t.work_pending ≡ false) × (t.reports ≡ s.reports)
short_receive_is_final {s} {t} ret regval path busy short later =
    let e = short_receive ret regval busy short in
    let shut = is_shut path busy in
    let v : Phase-of dead (run_work (ret, regval) s) = rw e (shut, refl) in
    let stays : t ≡ record s { work_pending = false } = dead_is_final v later ∙ e in
    rw stays (shut, refl, refl)
