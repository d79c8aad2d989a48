-- ===== src/Spin/Invariant.antt =====
-- What holds between the steps of the callers: at most one prints, and what is printed is whole groups
-- and a part of the group of this one.
use kernel_code.Prelude.{
  ℕ, suc, ◌≤◌, ◌<◌, ◌≡◌, Bool, true, false, some, List, [], ◌∷◌, ◌++◌, replicate, arith, Bool-cases,
  inl, inr, append-nil, ◌==◌, if◌then◌else◌,
}
use kernel_code.Kernel.Lock.{Lock}
use kernel_code.Kbuf.Locked.Section.{try_some, leave_held}
use kernel_code.Spin.{Text, Pc, idle, locking, printing, counting, Shared, System, put_back}
use kernel_code.Spin.Groups.{repeated, numbered, number_after, repeated-append}

abbrev pub in_section : Pc → Bool
in_section idle = false
in_section (locking str) = false
in_section (printing str i) = true
in_section (counting str i) = true

module _ (cnt first : ℕ) (lock : Lock) where
  -- The lines that were printed and the counter are those of the given strings.
  abbrev pub Written : Shared lock.State → (lines counted : List Text) → Type 0
  Written m lines counted =
      (m.log ≡ numbered first lines) × (m.g_count ≡ number_after first counted)

  -- What is printed after the groups of `strs` when a caller stands at `p`.
  abbrev pub Fits : List Text → Shared lock.State → Pc → Type 0
  Fits strs m idle = Unit
  Fits strs m (locking str) = Unit
  Fits strs m (printing str i) =
      let lines = repeated cnt strs ++ replicate i str in Written m lines lines × (i ≤ cnt)
  Fits strs m (counting str i) =
      Written m (repeated cnt strs ++ replicate (suc i) str) (repeated cnt strs ++ replicate i str)
      × (i < cnt)

  -- Outside the section nothing is said.
  Fits-outside :
      (strs : List Text) (m : Shared lock.State) (p : Pc) → in_section p ≡ false → Fits strs m p
  Fits-outside strs m idle out = tt
  Fits-outside strs m (locking str) out = tt
  Fits-outside strs m (printing str i) out = cc
  Fits-outside strs m (counting str i) out = cc

  pub record Inv (s : System cnt lock) : Type 0 where
    pub strs : List Text
    pub held : Bool
    pub lock_state : s.shared.lock ≡ (if held then lock.taken else lock.free)
    pub quiet : held ≡ false → Written s.shared (repeated cnt strs) (repeated cnt strs)
    pub outside : held ≡ false → (i : ℕ) → in_section (s.pc i) ≡ false
    pub owner : held ≡ true → (i : ℕ) × (in_section (s.pc i) ≡ true)
    pub unique : (i j : ℕ) → in_section (s.pc i) ≡ true → in_section (s.pc j) ≡ true → i ≡ j
    pub fits : (i : ℕ) → Fits strs s.shared (s.pc i)

  module _ {s : System cnt lock} (inv : Inv s) (i : ℕ) where
    open inv use {strs, held, lock_state, quiet, outside, owner, unique, fits}

    -- A caller outside stays outside.
    pub stay_outside :
        (p : Pc)
        → in_section (s.pc i) ≡ false
        → in_section p ≡ false
        → Inv (put_back cnt lock s i (s.shared, p))
    stay_outside p was is = record {
      strs = strs;
      held = held;
      lock_state = lock_state;
      quiet = quiet;
      outside = λ h j. ground (arith, outside h j);
      owner = λ h. let (j, at) = owner h in (j, ground arith);
      unique = λ j k a b. ground (arith, unique j k);
      fits = λ j. elim (Bool-cases (i == j)) [
        | inl e ↦ rw e (Fits-outside strs s.shared p is)
        | inr e ↦ rw e (fits j)
      ];
    }

    -- The caller in the section goes on in it.
    pub stay_inside :
        (p : Pc) (log : List (ℕ × Text)) (g : ℕ)
        → in_section (s.pc i) ≡ true
        → in_section p ≡ true
        → let m = record s.shared { log = log; g_count = g } in
          Fits strs m p → Inv (put_back cnt lock s i (m, p))
    stay_inside p log g was is f = record {
      strs = strs;
      held = held;
      lock_state = lock_state;
      quiet = λ h. ground (arith, outside h i);
      outside = λ h j. ground (arith, outside h i);
      owner = λ h. (i, ground arith);
      unique = λ j k a c. ground (arith, unique i j, unique i k, unique j k);
      fits = λ j. elim (Bool-cases (i == j)) [
        | inl e ↦ rw e f
        | inr e ↦ rw e (
            Fits-outside strs (record s.shared { log = log; g_count = g }) (s.pc j)
              (ground (arith, unique i j)))
      ];
    }

    -- The caller that finds the lock free takes it.
    pub enter :
        (str : Text) {l : lock.State}
        → in_section (s.pc i) ≡ false
        → lock.try s.shared.lock ≡ some l
        → Inv (put_back cnt lock s i (record s.shared { lock = l }, printing str 0))
    enter str {l} was got = record {
      strs = strs;
      held = true;
      lock_state = (try_some lock held lock_state got).1;
      quiet = λ h. cc;
      outside = λ h j. cc;
      owner = λ h. (i, ground arith);
      unique = λ j k a c. ground (arith, outside free j, outside free k);
      fits = λ j. elim (Bool-cases (i == j)) [
        | inl e ↦ rw (e, append-nil (repeated cnt strs)) (quiet free, omega arith)
        | inr e ↦ rw e (fits j)
      ];
    }
      where
        free : held ≡ false
        free = (try_some lock held lock_state got).0

    -- The caller in the section gives the lock back: one more string has its lines.
    pub leave :
        (str : Text)
        → s.pc i ≡ printing str cnt
        → Inv (put_back cnt lock s i (record s.shared { lock = lock.leave s.shared.lock }, idle))
    leave str stands = record {
      strs = strs ++ str ∷ [];
      held = false;
      lock_state = leave_held lock held lock_state holds;
      quiet = λ h. rw (repeated-append cnt strs str) (rw stands at (fits i)).0;
      outside = λ h j. ground (arith, unique i j);
      owner = λ h. cc;
      unique = λ j k a c. ground (arith, unique i j, unique i k);
      fits = λ j. elim (Bool-cases (i == j)) [
        | inl e ↦ rw e tt
        | inr e ↦ rw e (
            Fits-outside (strs ++ str ∷ []) (record s.shared { lock = lock.leave s.shared.lock })
              (s.pc j) (ground (arith, unique i j)))
      ];
    }
      where
        inside : in_section (s.pc i) ≡ true
        inside = rw stands

        holds : held ≡ true
        holds = elim (Bool-cases held) [ inl yes' ↦ yes' | inr no' ↦ cc (outside no' i, inside) ]
