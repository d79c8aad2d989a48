-- ===== src/Kbuf/Locked/Serial.antt =====
-- What the lock buys: mutual exclusion, calls that behave as if made one after another, a byte
-- stream that concurrent processes cannot tear, and a section that ends.
use kernel_code.Prelude.{
  ℕ, zero, suc, ◌≡◌, ◌≢◌, refl, sym, ap, subst, ◌∙◌, Bool, true, false, List, [], ◌∷◌, ◌++◌, arith,
  append_assoc, Bool-cases, inl, inr, ◌==◌,
}
use kernel_code.Kernel.Memory.{UserAccess}
use kernel_code.Kernel.Lock.{Lock}
use kernel_code.Kbuf.Script.{Op, get, put, delivered, accepted}
use kernel_code.Kbuf.Buffer.{Buffer, IsValid, contents}
use kernel_code.Kbuf.Nonblocking.Refine.{step-IsValid, step_refines}
use kernel_code.Kbuf.Nonblocking.Stream.{step_balance}
use kernel_code.Kbuf.Locked.{
  Pc, idle, locking, entered, copied, shifted, stored, leaving, Log, Shared, System, advance,
  put_back, Reach,
}
use kernel_code.Kbuf.Locked.Invariant.{in_section, Serial, none_yet, then_call}
use kernel_code.Kbuf.Locked.Section.{leave_held}
use kernel_code.Kbuf.Locked.Moves.{Reach-Inv}

-- The bytes that the calls of a log delivered and accepted, in the order of their return.
unfoldable pub delivered_by : Log → List ℕ
delivered_by [] = []
delivered_by ((op, r) ∷ log) = delivered_by log ++ delivered op r

unfoldable pub accepted_by : Log → List ℕ
accepted_by [] = []
accepted_by ((op, r) ∷ log) = accepted_by log ++ accepted op r

module _ (user : UserAccess) where
  Serial-IsValid : {log : Log} {b : Buffer} → Serial user log b → IsValid b
  Serial-IsValid none_yet = omega arith
  Serial-IsValid (then_call {b} {op} calls e) =
      rw (ap (λ x. x.1) e) at (step-IsValid user op (Serial-IsValid calls))

  Serial-stream :
      {log : Log} {b : Buffer}
      → Serial user log b
      → delivered_by log ++ contents b ≡ accepted_by log
  unfolding delivered_by accepted_by
  Serial-stream none_yet = refl
  Serial-stream (then_call {log} {b} {b'} {op} {r} calls e) = cc (
    append_assoc (delivered_by log) (delivered op r) (contents b'),
    append_assoc (delivered_by log) (contents b) (accepted op r),
    Serial-stream calls,
    step_balance user op (contents b),
    step_refines user op (Serial-IsValid calls),
    e,
  )

module _ (user : UserAccess) (lock : Lock) {s : System user lock}
    (reached : Reach user lock s) where
  -- In every reachable state, while a process is between lock and unlock, no other is.
  pub mutual_exclusion :
      (i j : ℕ) → in_section (s.pc i) ≡ true → i ≢ j → in_section (s.pc j) ≡ false
  mutual_exclusion i j inside ne = elim (Bool-cases (in_section (s.pc j))) [
    | inl too ↦ absurd (ne ((Reach-Inv user lock reached).unique i j inside too))
    | inr out ↦ out
  ]

  nobody_inside :
      ((i : ℕ) → in_section (s.pc i) ≡ false) → (Reach-Inv user lock reached).held ≡ false
  nobody_inside out = elim (Bool-cases held) [
    | inl yes' ↦ let (i, inside) = owner yes' in cc (out i, inside)
    | inr no' ↦ no'
  ]
    where
      open (Reach-Inv user lock reached) use {held, owner}

  -- However the steps of the processes interleave: in a reachable state in which none is in the
  -- section, the kbuf and the results of all calls that returned are those of the same calls
  -- made undivided, one after another, what the reads delivered and what is left in the kbuf is
  -- what the writes accepted, in order, and the kbuf is valid.
  pub serializable :
      ((i : ℕ) → in_section (s.pc i) ≡ false)
      → Serial user s.shared.log s.shared.buffer
        × (delivered_by s.shared.log ++ contents s.shared.buffer ≡ accepted_by s.shared.log)
        × IsValid s.shared.buffer
  serializable out =
      let calls = subst (Serial user s.shared.log) (sym (quiet (nobody_inside out))) serial in
      (calls, Serial-stream user calls, Serial-IsValid user calls)
    where
      open (Reach-Inv user lock reached) use {quiet, serial}

-- `n` steps in a row of process `i`
unfoldable pub turns :
    (user : UserAccess) (lock : Lock) → ℕ → ℕ → System user lock → System user lock
turns user lock zero i s = s
turns user lock (suc n) i s =
    turns user lock n i (put_back user lock s i (advance user lock (s.pc i) s.shared))

module _ (user : UserAccess) (lock : Lock) where
  steps : ℕ → Pc → Shared lock.State → Shared lock.State × Pc
  steps zero p m = (m, p)
  steps (suc n) p m = let (m', p') = advance user lock p m in steps n p' m'

  turns-steps :
      (n i : ℕ) (s : System user lock)
      → let s' = turns user lock n i s in (s'.shared, s'.pc i) ≡ steps n (s.pc i) s.shared
  unfolding turns steps
  turns-steps zero i s = refl
  turns-steps (suc n) i s =
      let self : (i == i) ≡ true = ground arith in
      rw self at (turns-steps n i (put_back user lock s i (advance user lock (s.pc i) s.shared)))

  abbrev after_test : Pc → Bool
  after_test (copied op n out) = true
  after_test (shifted op n out) = true
  after_test (stored op n) = true
  after_test (leaving op r) = true
  after_test _ = false

  entered-after_test :
      (op : Op) (m : Shared lock.State)
      → let (m', p) = advance user lock (entered op) m in (after_test p ≡ true) × (m'.lock ≡ m.lock)
  unfolding advance
  entered-after_test (get room cnt) m = ground arith
  entered-after_test (put src cnt) m = ground arith

  after_test-leaves :
      (p : Pc) (m : Shared lock.State)
      → after_test p ≡ true
      → let (m', p') = steps 3 p m in (p' ≡ idle) × (m'.lock ≡ lock.leave m.lock)
  unfolding steps advance
  after_test-leaves idle m h = cc
  after_test-leaves (locking op) m h = cc
  after_test-leaves (entered op) m h = cc
  after_test-leaves (copied op n out) m h = (refl, refl)
  after_test-leaves (shifted op n out) m h = (refl, refl)
  after_test-leaves (stored op n) m h = (refl, refl)
  after_test-leaves (leaving op r) m h = (refl, refl)

  after_test-leaves-more :
      (p : Pc) (m : Shared lock.State)
      → after_test p ≡ true
      → let (m', p') = steps 4 p m in (p' ≡ idle) × (m'.lock ≡ lock.leave m.lock)
  unfolding steps advance
  after_test-leaves-more idle m h = cc
  after_test-leaves-more (locking op) m h = cc
  after_test-leaves-more (entered op) m h = cc
  after_test-leaves-more (copied op n out) m h = (refl, refl)
  after_test-leaves-more (shifted op n out) m h = (refl, refl)
  after_test-leaves-more (stored op n) m h = (refl, refl)
  after_test-leaves-more (leaving op r) m h = (refl, refl)

  -- Four steps take a process from anywhere in the section to behind the unlock.
  section-leaves :
      (p : Pc) (m : Shared lock.State)
      → in_section p ≡ true
      → let (m', p') = steps 4 p m in (p' ≡ idle) × (m'.lock ≡ lock.leave m.lock)
  unfolding steps
  section-leaves idle m h = cc
  section-leaves (locking op) m h = cc
  section-leaves (entered op) m h =
      let (m', p') = advance user lock (entered op) m in
      let (after, same_lock) = entered-after_test op m in
      rw same_lock at (after_test-leaves p' m' after)
  section-leaves (copied op n out) m h = after_test-leaves-more _ m refl
  section-leaves (shifted op n out) m h = after_test-leaves-more _ m refl
  section-leaves (stored op n) m h = after_test-leaves-more _ m refl
  section-leaves (leaving op r) m h = after_test-leaves-more _ m refl

  -- The section ends: in a reachable state, four steps of the process in the section bring it out of
  -- its call, with the lock free for the processes that wait.
  pub section_ends :
      {s : System user lock} (i : ℕ)
      → Reach user lock s
      → in_section (s.pc i) ≡ true
      → let s' = turns user lock 4 i s in (s'.pc i ≡ idle) × (s'.shared.lock ≡ lock.free)
  section_ends {s} i reached inside =
      let (at_rest, left) = section-leaves (s.pc i) s.shared inside in
      let same = turns-steps 4 i s in
      (
        ap (λ x. x.1) same ∙ at_rest,
        ap (λ x. x.0.lock) same ∙ left ∙ leave_held lock held lock_state holds,
      )
    where
      open (Reach-Inv user lock reached) use {held, lock_state, outside}

      holds : held ≡ true
      holds = elim (Bool-cases held) [ inl yes' ↦ yes' | inr no' ↦ cc (outside no' i, inside) ]
