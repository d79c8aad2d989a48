-- ===== src/Time/Delay.antt =====
-- How long `mydelay` waits.
use kernel_code.Prelude.{
  ℕ, ◌+◌, ◌-◌, ◌*◌, ◌<◌, ◌≤◌, ◌%◌, ◌^◌, ◌≡◌, refl, inl, inr, Bool-cases, ltb, ltb→lt, subst, Option,
  none, some, List, [], ◌∷◌, arith,
}
use kernel_code.Time.{Ticks, wait, mydelay}

-- Each `schedule` takes at least one tick and at most `most`.
abbrev pub Passes : ℕ → List ℕ → Type 0
Passes most [] = Unit
Passes most (gap ∷ gaps) = (1 ≤ gap) × (gap ≤ most) × Passes most gaps

abbrev pub sum : List ℕ → ℕ
sum [] = 0
sum (gap ∷ gaps) = gap + sum gaps

module _ (k : Ticks) (most : ℕ) where
  -- `over` ticks have passed since the end: the loop ends at once.
  wait_over :
      (gaps : List ℕ) (end over : ℕ)
      → over < 2 ^ 31
      → wait k (end % 2 ^ 32) gaps (end + over) ≡ some (end + over)
  unfolding wait
  wait_over [] end over small = rw (k.since end over small) refl
  wait_over (gap ∷ gaps) end over small = rw (k.since end over small) refl

  -- The loop ends at `end` or later, by less than the longest `schedule`.
  abbrev pub EndsAt : (end : ℕ) → Option ℕ → Type 0
  EndsAt end none = ⊥
  EndsAt end (some t') = (end ≤ t') × (t' < end + most)

  wait_more :
      (gaps : List ℕ) (t left : ℕ)
      → 0 < left
      → left + most < 2 ^ 31
      → Passes most gaps
      → left ≤ sum gaps
      → EndsAt (t + left) (wait k ((t + left) % 2 ^ 32) gaps t)
  unfolding wait
  wait_more [] t left some_left small passes enough = absurd (omega arith)
  wait_more (gap ∷ gaps) t left some_left small (lo, hi, rest) enough =
      rw (k.not_yet t left some_left (omega arith)) (elim (Bool-cases (ltb gap left)) [
        | inl more ↦
            let lt = ltb→lt gap left more in
            let same : t + gap + (left - gap) ≡ t + left = omega (arith, lt) in
            subst (λ e. EndsAt e (wait k (e % 2 ^ 32) gaps (t + gap))) same
              (wait_more gaps (t + gap) (left - gap) (omega (arith, lt)) (omega arith) rest
                (omega (arith, enough)))
        | inr over ↦
            let le : left ≤ gap = ground (arith, over) in
            let same : t + left + (gap - left) ≡ t + gap = omega (arith, le) in
            let ends =
              subst (λ u. wait k ((t + left) % 2 ^ 32) gaps u ≡ some u) same
                (wait_over gaps (t + left) (gap - left) (omega (arith, hi))) in
            rw ends (omega (arith, le), omega (arith, hi, some_left))
      ])

  -- If each `schedule` takes a tick at least and `most` at most, and they take enough in all, `mydelay`
  -- comes to its end: not before its seconds have passed, and later by less than one `schedule`,
  -- wherever `jiffies` wraps. The seconds and one `schedule` are less than 2^31 ticks.
  pub mydelay_lem :
      (sec t : ℕ) (gaps : List ℕ)
      → 0 < sec * k.hz
      → sec * k.hz + most < 2 ^ 31
      → Passes most gaps
      → sec * k.hz ≤ sum gaps
      → EndsAt (t + sec * k.hz) (mydelay k sec gaps t)
  unfolding mydelay
  mydelay_lem sec t gaps some_ticks small passes enough =
      wait_more gaps t (sec * k.hz) some_ticks small passes enough
