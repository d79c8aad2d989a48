-- ===== src/Kbuf/Locked/Section.antt =====
-- What a step into the section, inside it or out of it does to the invariant of the locked kbuf.
use kernel_code.Prelude.{
  ℕ, ◌≡◌, refl, ap, ◌∙◌, Bool, true, false, some, ◌∷◌, arith, ◌==◌, if◌then◌else◌, Bool-cases, inl,
  inr,
}
use kernel_code.Kernel.Memory.{UserAccess}
use kernel_code.Kernel.Lock.{Lock}
use kernel_code.Kbuf.Script.{Op, Reply}
use kernel_code.Kbuf.Buffer.{Buffer}
use kernel_code.Kbuf.Nonblocking
use kernel_code.Kbuf.Nonblocking.Refine.{step-IsValid}
use kernel_code.Kbuf.Locked.{Pc, idle, entered, leaving, Log, asks_nothing, System, put_back}
use kernel_code.Kbuf.Locked.Invariant.{in_section, Serial, then_call, Fits, Fits-outside, Inv}

-- An attempt succeeds only on the free lock, and takes it.
pub try_some :
    (lock : Lock) (h : Bool) {st l : lock.State}
    → st ≡ (if h then lock.taken else lock.free)
    → lock.try st ≡ some l
    → (h ≡ false) × (l ≡ lock.taken)
try_some lock true e got = cc (lock.try-taken, ap lock.try e)
try_some lock false e got = (refl, cc (lock.try-free, ap lock.try e))

pub leave_held :
    (lock : Lock) (h : Bool) {st : lock.State}
    → st ≡ (if h then lock.taken else lock.free)
    → h ≡ true
    → lock.leave st ≡ lock.free
leave_held lock true e t = ap lock.leave e ∙ lock.leave-taken
leave_held lock false e t = cc

module _ (user : UserAccess) (lock : Lock) {s : System user lock} (inv : Inv user lock s)
    (i : ℕ) where
  open inv use {base, valid, serial, held, lock_state, quiet, outside, owner, unique, fits}

  -- A process outside stays outside, and the calls that returned still fit.
  pub stay_outside :
      (p : Pc) {log : Log}
      → in_section (s.pc i) ≡ false
      → in_section p ≡ false
      → Fits user base s.shared.buffer p
      → Serial user log base
      → Inv user lock (put_back user lock s i (record s.shared { log = log }, p))
  stay_outside p was is f calls = record {
    base = base;
    valid = valid;
    serial = calls;
    held = held;
    lock_state = lock_state;
    quiet = quiet;
    outside = λ h j. ground (arith, outside h j);
    owner = λ h. let (j, at) = owner h in (j, ground arith);
    unique = λ j k a b. ground (arith, unique j k);
    fits = λ j. elim (Bool-cases (i == j)) [ inl e ↦ rw e f | inr e ↦ rw e (fits j) ];
  }

  -- A process that is in the section goes on in it.
  pub stay_inside :
      (p : Pc) (b : Buffer)
      → in_section (s.pc i) ≡ true
      → in_section p ≡ true
      → Fits user base b p
      → Inv user lock (put_back user lock s i (record s.shared { buffer = b }, p))
  stay_inside p b was is f = record {
    base = base;
    valid = valid;
    serial = serial;
    held = held;
    lock_state = lock_state;
    quiet = λ h. ground (arith, outside h i);
    outside = λ h j. ground (arith, outside h i);
    owner = λ h. (i, ground arith);
    unique = λ j k a c. ground (arith, unique i j, unique i k, unique j k);
    fits = λ j. elim (Bool-cases (i == j)) [
      | inl e ↦ rw e f
      | inr e ↦ rw e (
          Fits-outside user base s.shared.buffer base b (s.pc j) (ground (arith, unique i j))
            (fits j))
    ];
  }

  -- The process that finds the lock free takes it.
  pub enter :
      (op : Op) {l : lock.State}
      → in_section (s.pc i) ≡ false
      → asks_nothing op ≡ false
      → lock.try s.shared.lock ≡ some l
      → Inv user lock (put_back user lock s i (record s.shared { lock = l }, entered op))
  enter op {l} was asks got = record {
    base = base;
    valid = valid;
    serial = serial;
    held = true;
    lock_state = (try_some lock held lock_state got).1;
    quiet = λ h. cc;
    outside = λ h j. cc;
    owner = λ h. (i, ground arith);
    unique = λ j k a c. ground (arith, outside free j, outside free k);
    fits =
        λ j. elim (Bool-cases (i == j)) [ inl e ↦ rw e (quiet free, asks) | inr e ↦ rw e (fits j) ];
  }
    where
      free : held ≡ false
      free = (try_some lock held lock_state got).0

  -- The process in the section gives the lock back: its call counts as made, undivided, now.
  pub leave :
      (op : Op) (r : Reply)
      → s.pc i ≡ leaving op r
      → Inv user lock (
          put_back user lock s i (
            record s.shared { lock = lock.leave s.shared.lock; log = (op, r) ∷ s.shared.log },
            idle,
          ))
  leave op r stands = record {
    base = s.shared.buffer;
    valid = rw (ap (λ x. x.1) call) at (step-IsValid user op valid);
    serial = then_call serial call;
    held = false;
    lock_state = leave_held lock held lock_state holds;
    quiet = λ h. refl;
    outside = λ h j. ground (arith, unique i j);
    owner = λ h. cc;
    unique = λ j k a c. ground (arith, unique i j, unique i k);
    fits = λ j. elim (Bool-cases (i == j)) [
      | inl e ↦ rw e tt
      | inr e ↦ rw e (
          Fits-outside user base s.shared.buffer s.shared.buffer s.shared.buffer (s.pc j)
            (ground (arith, unique i j)) (fits j))
    ];
  }
    where
      call : Nonblocking.step user op base ≡ (r, s.shared.buffer)
      call = rw stands at (fits i)

      inside : in_section (s.pc i) ≡ true
      inside = rw stands

      holds : held ≡ true
      holds = elim (Bool-cases held) [ inl yes' ↦ yes' | inr no' ↦ cc (outside no' i, inside) ]
