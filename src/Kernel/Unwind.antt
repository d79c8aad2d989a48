-- ===== src/Kernel/Unwind.antt =====
-- The loop of the drivers' initialisations: acquire for each `i`, and at the first failure
-- `goto error` to a `while (i--)` that releases what the rounds before had acquired.
use kernel_code.Prelude.{
  ℕ, zero, suc, ◌+◌, ◌<◌, ◌≡◌, refl, ap, ◌∙◌, Bool, true, false, ◌&&◌, ℤ, arith, Bool-cases, inl,
  inr, if◌then◌else◌,
}
use kernel_code.Kernel.World.{World}

-- One round: all was acquired, or `ret` was set and the jump is taken.
pub data Round : Type 0 where
  added : World → Round
  stopped : (ret : ℤ) → World → Round

-- The loop: all rounds were made, or the jump was taken at `i`.
pub data Sweep : Type 0 where
  complete : World → Sweep
  failed_at : (i : ℕ) (ret : ℤ) → World → Sweep

-- `rounds` more rounds from `i` on
unfoldable pub sweep : (ℕ → World → Round) → (rounds i : ℕ) → World → Sweep
sweep add zero i w = complete w
sweep add (suc k) i w = elim (add i w) [
  | added w' ↦ sweep add k (suc i) w'
  | stopped ret w' ↦ failed_at i ret w'
]

sweep-zero : (add : ℕ → World → Round) (i : ℕ) (w : World) → sweep add zero i w ≡ complete w
unfolding sweep
sweep-zero add i w = refl

sweep-added :
    (add : ℕ → World → Round) (k i : ℕ) {w w' : World}
    → add i w ≡ added w'
    → sweep add (suc k) i w ≡ sweep add k (suc i) w'
unfolding sweep
sweep-added add k i e = rw (e, sweep)

sweep-stopped :
    (add : ℕ → World → Round) (k i : ℕ) {w w' : World} {ret : ℤ}
    → add i w ≡ stopped ret w'
    → sweep add (suc k) i w ≡ failed_at i ret w'
unfolding sweep
sweep-stopped add k i e = rw (e, sweep)

-- `while (i--) remove(i)`
unfoldable pub unwind : (ℕ → World → World) → ℕ → World → World
unwind remove zero w = w
unwind remove (suc i) w = unwind remove i (remove i w)

-- What the function returns after the loop: `ret` if it was completed; else the error, after the
-- rounds before the failed one were undone and `finish` released what stood before the loop.
abbrev pub settle : (ℕ → World → World) → ℤ → (World → World) → Sweep → ℤ × World
settle remove ret finish (complete w) = (ret, w)
settle remove ret finish (failed_at i err w) = (err, finish (unwind remove i w))

-- What a round does to the world: with `granted i` it takes what `take i` says, else nothing stays
-- taken and `error i` is returned; `remove` gives back what was taken.
pub record Rounds (add : ℕ → World → Round) (remove : ℕ → World → World) : Type 0 where
  pub granted : ℕ → Bool
  pub error : ℕ → ℤ
  pub take : ℕ → World → World
  pub add_granted : (i : ℕ) (w : World) → granted i ≡ true → add i w ≡ added (take i w)
  pub add_refused : (i : ℕ) (w : World) → granted i ≡ false → add i w ≡ stopped (error i) w
  pub remove_take : (i : ℕ) (w : World) → remove i (take i w) ≡ w

module _ {add : ℕ → World → Round} {remove : ℕ → World → World} (r : Rounds add remove) where
  open r use {granted, error, take, add_granted, add_refused, remove_take}

  -- what the rounds before `i` take
  unfoldable pub taken : ℕ → World → World
  taken zero w = w
  taken (suc i) w = take i (taken i w)

  unfoldable pub all_granted : (rounds i : ℕ) → Bool
  all_granted zero i = true
  all_granted (suc k) i = granted i && all_granted k (suc i)

  -- what the first refused round returns
  unfoldable pub first_error : (rounds i : ℕ) → ℤ → ℤ
  first_error zero i ret = ret
  first_error (suc k) i ret = elim (granted i) [
    | true ↦ first_error k (suc i) ret
    | false ↦ error i
  ]

  pub first_error-granted :
      (k i : ℕ) (ret : ℤ) → granted i ≡ true → first_error (suc k) i ret ≡ first_error k (suc i) ret
  unfolding first_error
  first_error-granted k i ret e = rw (e, first_error)

  pub first_error-refused :
      (k i : ℕ) (ret : ℤ) → granted i ≡ false → first_error (suc k) i ret ≡ error i
  unfolding first_error
  first_error-refused k i ret e = rw (e, first_error)

  pub unwind-taken : (i : ℕ) (w : World) → unwind remove i (taken i w) ≡ w
  unfolding unwind taken
  unwind-taken zero w = refl
  unwind-taken (suc i) w = rw (remove_take i (taken i w)) (unwind-taken i w)

  -- The loop from round `i` on: either every round is granted and all is taken, or the first error
  -- is returned and the jump has given back all that was taken.
  pub settle-sweep :
      (ret : ℤ) (finish : World → World) (k i : ℕ) (w : World)
      → settle remove ret finish (sweep add k i (taken i w))
        ≡ (if all_granted k i then (ret, taken (i + k) w) else (first_error k i ret, finish w))
  unfolding all_granted taken
  settle-sweep ret finish zero i w =
      let e : i ≡ i + 0 = omega arith in rw sweep-zero (ap (λ j. (ret, taken j w)) e)
  settle-sweep ret finish (suc k) i w = elim (Bool-cases (granted i)) [
    | inl all ↦
        let e : i + suc k ≡ suc i + k = omega arith in
        rw
          (
            sweep-added add k i (add_granted i (taken i w) all),
            all,
            first_error-granted k i ret all,
            e,
          )
          (settle-sweep ret finish k (suc i) w)
    | inr refused ↦ rw (
      sweep-stopped add k i (add_refused i (taken i w) refused),
      refused,
      first_error-refused k i ret refused,
      unwind-taken i w,
    )
  ]

  -- The first refused round decides what is returned.
  pub first_error-eq :
      (n k i : ℕ) (ret : ℤ)
      → n < k
      → all_granted n i ≡ true
      → granted (i + n) ≡ false
      → (first_error k i ret ≡ error (i + n)) × (all_granted k i ≡ false)
  unfolding all_granted
  first_error-eq n zero i ret lt h g = absurd (omega arith)
  first_error-eq zero (suc k) i ret lt h g =
      let e : i + 0 ≡ i = omega arith in
      let g' : granted i ≡ false = rw e at g in rw e (first_error-refused k i ret g', rw g')
  first_error-eq (suc n) (suc k) i ret lt h g =
      let e : i + suc n ≡ suc i + n = omega arith in
      let g' : granted (suc i + n) ≡ false = rw e at g in
      let now : granted i ≡ true = ground arith in
      let later : all_granted n (suc i) ≡ true = ground arith in
      let rest = first_error-eq n k (suc i) ret (omega arith) later g' in
      rw e (first_error-granted k i ret now ∙ rest.0, rw now rest.1)
