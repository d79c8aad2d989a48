-- ===== src/Time/Timer/Laws.antt =====
-- When the functions of the timers print.
use kernel_code.Prelude.{
  ℕ, ◌+◌, ◌*◌, ◌≡◌, refl, sym, ap, ◌∙◌, true, false, List, [], ◌∷◌, ◌++◌, append-nil, append_assoc,
  if◌then◌else◌,
}
use kernel_code.Time.Timer.{Timer, nothing_set, fire, do_timer_fool, init, exit, sec}
use kernel_code.Time.Timer.Once

-- The kernel runs the timer once for each entry, that many ticks late.
abbrev pub fires : (ℕ → Timer → Timer) → List ℕ → Timer → Timer
fires function [] s = s
fires function (late ∷ rest) s = fires function rest (fire function late s)

-- Every line comes `period` ticks after the one before, and as many as the timer was late.
abbrev pub times : (period t : ℕ) → List ℕ → List ℕ
times period t [] = []
times period t (late ∷ rest) = (t + period + late) ∷ times period (t + period + late) rest

module _ (hz : ℕ) where
  again :
      (lates : List ℕ) (t : ℕ) (printed : List ℕ)
      → let s : Timer = record { pending = true; expires = t + sec * hz; printed = printed } in
        (fires (do_timer_fool hz) lates s).printed ≡ printed ++ times (sec * hz) t lates
  unfolding do_timer_fool
  again [] t printed = sym (append-nil printed)
  again (late ∷ rest) t printed =
      let now = t + sec * hz + late in
      again rest now (printed ++ now ∷ [])
      ∙ append_assoc printed (now ∷ []) (times (sec * hz) now rest)

  -- The timer that is started again prints each line three seconds after the one before and as much later
  -- as it was run late, so that delays add up; after the exit it prints nothing more.
  pub timer_prints :
      (lates later : List ℕ) (t : ℕ)
      → let s = fires (do_timer_fool hz) lates (init hz t nothing_set) in
        (s.printed ≡ times (sec * hz) t lates)
        × ((fires (do_timer_fool hz) later (exit s)).printed ≡ s.printed)
  unfolding init exit
  timer_prints lates later t =
      (again lates t [], stopped later (fires (do_timer_fool hz) lates (init hz t nothing_set)))
    where
      stopped :
          (later : List ℕ) (s : Timer)
          → (fires (do_timer_fool hz) later (exit s)).printed ≡ s.printed
      stopped [] s = refl
      stopped (late ∷ rest) s = stopped rest s

  -- The timer that runs once prints one line, three seconds after the start and as much later as it was
  -- run late, however long one waits.
  pub timer_prints_once :
      (late t : ℕ) (later : List ℕ)
      → (fires Once.do_timer_fool (late ∷ later) (Once.init hz t nothing_set)).printed
        ≡ (t + sec * hz + late) ∷ []
  unfolding Once.do_timer_fool Once.init init
  timer_prints_once late t later =
      over later
        (Once.do_timer_fool (t + sec * hz + late)
          (record { pending = false; expires = t + sec * hz; printed = [] }))
        refl
    where
      over :
          (later : List ℕ) (s : Timer)
          → s.pending ≡ false
          → (fires Once.do_timer_fool later s).printed ≡ s.printed
      over [] s off = refl
      over (l ∷ rest) s off =
          ap
            (λ b.
              (fires Once.do_timer_fool rest (
                if b
                then Once.do_timer_fool (s.expires + l) (record s { pending = false })
                else s)).printed)
            off
          ∙ over rest s off
