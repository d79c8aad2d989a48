-- ===== src/Spin/Laws.antt =====
-- However the callers interleave, the lines of each string stand together.
use kernel_code.Prelude.{
  ℕ, zero, suc, ◌*◌, ◌%◌, ◌^◌, ◌+◌, ◌≡◌, refl, ap, ◌∙◌, true, false, none, some, List, [], ◌∷◌,
  ◌++◌, replicate, arith, Bool-cases, Option-cases, inl, inr, ltb,
}
use kernel_code.Kernel.Lock.{Lock}
use kernel_code.Spin.{
  Text, Pc, idle, locking, printing, counting, Shared, print_string, System, put_back, start, Step,
  calls, moves, Reach, here, next,
}
use kernel_code.Spin.Groups.{
  repeated, numbered, number_after, numbered-append, number_after-append, one_more_line,
}
use kernel_code.Spin.Invariant.{in_section, Inv, stay_outside, stay_inside, enter, leave}

module _ (cnt first : ℕ) (lock : Lock) where
  start-Inv : Inv cnt first lock (start cnt lock first)
  start-Inv = record {
    strs = [];
    held = false;
    lock_state = refl;
    quiet = λ h. (refl, refl);
    outside = λ h i. refl;
    owner = λ h. cc;
    unique = λ i j a b. cc;
    fits = λ i. tt;
  }

  pub locking_busy :
      (str : Text) (m : Shared lock.State)
      → lock.try m.lock ≡ none
      → print_string cnt lock (locking str) m ≡ (m, locking str)
  unfolding print_string
  locking_busy str m busy = rw (busy, print_string)

  pub locking_got :
      (str : Text) (m : Shared lock.State) {l : lock.State}
      → lock.try m.lock ≡ some l
      → print_string cnt lock (locking str) m ≡ (record m { lock = l }, printing str 0)
  unfolding print_string
  locking_got str m got = rw (got, print_string)

  module _ {s : System cnt lock} (inv : Inv cnt first lock s) (i : ℕ) where
    open inv use {strs, fits}

    print_string-Inv :
        (p : Pc)
        → s.pc i ≡ p
        → Inv cnt first lock (put_back cnt lock s i (print_string cnt lock p s.shared))
    unfolding print_string
    print_string-Inv idle e = stay_outside cnt first lock inv i idle (rw e) refl
    print_string-Inv (locking str) e = elim (Option-cases (lock.try s.shared.lock)) [
      | inl busy ↦
          rw (locking_busy str s.shared busy)
            (stay_outside cnt first lock inv i (locking str) (rw e) refl)
      | inr (l, got) ↦ rw (locking_got str s.shared got) (enter cnt first lock inv i str (rw e) got)
    ]
    print_string-Inv (printing str k) e = elim (Bool-cases (ltb k cnt)) [
      | inl more ↦ rw more (
          let ((log_eq, count_eq), le) = rw e at (fits i) in
          stay_inside cnt first lock inv i (counting str k) _ _ (rw e) refl (
            (
              cc (
                log_eq,
                count_eq,
                numbered-append first (repeated cnt strs ++ replicate k str) str,
                ap (numbered first) (one_more_line (repeated cnt strs) k str),
              ),
              count_eq,
            ),
            ground arith,
          ))
      | inr all ↦ rw all (
          leave cnt first lock inv i str (
            let last : k ≡ cnt = ground (arith, (rw e at (fits i)).1) in
            e ∙ ap (printing str) last))
    ]
    print_string-Inv (counting str k) e =
        let ((log_eq, count_eq), lt) = rw e at (fits i) in
        stay_inside cnt first lock inv i (printing str (k + 1)) _ _ (rw e) refl (
          let next_line : k + 1 ≡ suc k = omega arith in
          rw next_line (
            (
              log_eq,
              cc (
                count_eq,
                number_after-append first (repeated cnt strs ++ replicate k str) str,
                ap (number_after first) (one_more_line (repeated cnt strs) k str),
              ),
            ),
            omega (arith, lt),
          ))

  Step-Inv :
      {s t : System cnt lock} → Step cnt lock s t → Inv cnt first lock s → Inv cnt first lock t
  Step-Inv (calls i str at_rest) inv =
      stay_outside cnt first lock inv i (locking str) (rw at_rest) refl
  Step-Inv {s} (moves i) inv = print_string-Inv inv i (s.pc i) refl

  Reach-Inv : {s : System cnt lock} → Reach cnt lock first s → Inv cnt first lock s
  Reach-Inv here = start-Inv
  Reach-Inv (next path step) = Step-Inv step (Reach-Inv path)

  module _ {s : System cnt lock} (reached : Reach cnt lock first s) where
    open (Reach-Inv reached) use {strs, held, quiet, owner, unique}

    -- However the steps of the callers interleave: in a reachable state in which none is between lock
    -- and unlock, the lines that were printed are those of some strings, each repeated `cnt` times
    -- with nothing between, numbered in turn from the first number on with 32 bits, and the counter is
    -- the number after them.
    pub lines_together :
        ((i : ℕ) → in_section (s.pc i) ≡ false)
        → (strs : List Text) × (s.shared.log ≡ numbered first (repeated cnt strs))
          × (s.shared.g_count ≡ number_after first (repeated cnt strs))
    lines_together out = (strs, (quiet nobody).0, (quiet nobody).1)
      where
        nobody : held ≡ false
        nobody = elim (Bool-cases held) [
          | inl yes' ↦ let (i, inside) = owner yes' in cc (out i, inside)
          | inr no' ↦ no'
        ]

    -- In a reachable state, while one caller is between lock and unlock, no other is.
    pub one_prints : (i j : ℕ) → in_section (s.pc i) ≡ true → in_section (s.pc j) ≡ true → i ≡ j
    one_prints i j a b = unique i j a b

module _ (cnt : ℕ) (lock : Lock) where
  -- `n` steps of one caller, with no other between.
  abbrev pub alone : ℕ → Shared lock.State → Pc → Shared lock.State × Pc
  alone zero m p = (m, p)
  alone (suc n) m p = let (m', p') = print_string cnt lock p m in alone n m' p'

  one_line :
      (n : ℕ) (str : Text) (k : ℕ) (m : Shared lock.State)
      → ltb k cnt ≡ true
      → alone (suc (suc n)) m (printing str k)
        ≡ alone n
            (record m { log = m.log ++ (m.g_count, str) ∷ []; g_count = (m.g_count + 1) % 2 ^ 32 })
            (printing str (k + 1))
  unfolding print_string
  one_line n str k m more = rw more refl

  last_line :
      (str : Text) (k : ℕ) (m : Shared lock.State)
      → ltb k cnt ≡ false
      → alone 1 m (printing str k) ≡ (record m { lock = lock.leave m.lock }, idle)
  unfolding print_string
  last_line str k m done = rw done refl

  -- The caller that holds the lock, at line `k` of `cnt`, comes to the end of its call within two steps
  -- for each line that is left and one more, and gives the lock back.
  pub call_ends :
      (left k : ℕ) (str : Text) (m : Shared lock.State)
      → k + left ≡ cnt
      → let (m', p) = alone (2 * left + 1) m (printing str k) in
        (p ≡ idle) × (m'.lock ≡ lock.leave m.lock)
  call_ends zero k str m e = rw (last_line str k m (ground arith)) (refl, refl)
  call_ends (suc left) k str m e =
      let steps : 2 * suc left + 1 ≡ suc (suc (2 * left + 1)) = omega arith in
      let lines : k + 1 + left ≡ cnt = omega (arith, e) in
      rw (steps, one_line (2 * left + 1) str k m (ground arith))
        (call_ends left (k + 1) str
          (record m { log = m.log ++ (m.g_count, str) ∷ []; g_count = (m.g_count + 1) % 2 ^ 32 })
          lines)
