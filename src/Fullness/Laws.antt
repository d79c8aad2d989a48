-- ===== src/Fullness/Laws.antt =====
-- Successful writes and reads take turns.
use kernel_code.Prelude.{
  ℕ, ◌≡◌, refl, Bool, true, false, not, ◌&&◌, List, [], ◌∷◌, ℤ, is_negative, arith, ◌==◌,
  if◌then◌else◌, Bool-cases, inl, inr,
}
use kernel_code.Fullness.{demo_read, demo_write}

pub data Op : Type 0 where
  get put : (cnt : ℕ) → Op

unfoldable pub step : Op → Bool → ℤ × Bool
step (get cnt) is_full = demo_read cnt is_full
step (put cnt) is_full = demo_write cnt is_full

abbrev pub is_put : Op → Bool
is_put (get cnt) = false
is_put (put cnt) = true

-- A call asks for something and finds the device in the state for it.
abbrev pub accepted : Op → Bool → Bool
accepted (get cnt) is_full = not (cnt == 0) && is_full
accepted (put cnt) is_full = not (cnt == 0) && not is_full

-- The calls of the list that succeed, as whether they are writes, and the state in the end.
unfoldable pub successes : List Op → Bool → List Bool × Bool
successes [] is_full = ([], is_full)
successes (op ∷ ops) is_full =
    let (ret, full) = step op is_full in
    let (rest, last) = successes ops full in
    if is_negative ret then (rest, last) else (is_put op ∷ rest, last)

-- Every other is `true`, beginning with `first`, and the next would be `last`.
abbrev pub Alternates : Bool → List Bool → Bool → Type 0
Alternates first [] last = first ≡ last
Alternates first (b ∷ bs) last = (b ≡ first) × Alternates (not first) bs last

step_lem :
    (op : Op) (is_full : Bool)
    → let (ret, full) = step op is_full in
      if accepted op is_full
      then (is_negative ret ≡ false) × (full ≡ not is_full) × (is_put op ≡ not is_full)
      else (is_negative ret ≡ true) × (full ≡ is_full)
unfolding step demo_read demo_write
step_lem (get cnt) is_full = ground arith
step_lem (put cnt) is_full = ground arith

-- Of the calls of any processes in any order, those that succeed are writes and reads in turns: on a
-- device that is empty a write comes first, on one that is full a read; the device is full in the end
-- exactly if a read would be next.
pub successes_alternate :
    (ops : List Op) (is_full : Bool)
    → let (done, last) = successes ops is_full in Alternates (not is_full) done (not last)
unfolding successes
successes_alternate [] is_full = refl
successes_alternate (op ∷ ops) is_full = elim (Bool-cases (accepted op is_full)) [
  | inl yes' ↦
      let law = step_lem op is_full in
      let (ok, full, kind) = rw yes' at law in
      rw (ok, full, kind) (refl, successes_alternate ops (not is_full))
  | inr no' ↦
      let law = step_lem op is_full in
      let (refused, full) = rw no' at law in rw (refused, full) (successes_alternate ops is_full)
]
