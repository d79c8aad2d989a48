-- ===== src/Spin/Processor/Invariant.antt =====
-- What holds between the steps of the processor: the lock is taken exactly while one of the two callers
-- holds it.
use kernel_code.Prelude.{
  subst, ◌||◌, ltb, ℕ, ◌≡◌, ◌≢◌, refl, ap, ◌∙◌, Bool, true, false, ◌&&◌, Option, none, some, arith,
  if◌then◌else◌, Bool-cases, inl, inr,
}
use kernel_code.Kernel.Lock.{Lock}
use kernel_code.Spin.{Text, Pc, idle, locking, printing, counting, Shared, print_string}
use kernel_code.Spin.Invariant.{in_section}
use kernel_code.Spin.Laws.{locking_busy, locking_got}
use kernel_code.Spin.Processor.{
  Processor, returned, handler_holds, is_running, step, let_in, Step, Reach, goes_on, calls,
  interrupted, here, next,
}

-- The lock is as it must be for one caller at `p`, where `other` says whether another holds it.
abbrev pub Locked : (lock : Lock) → Pc → (other : Bool) → lock.State → Type 0
Locked lock p other l =
    (l ≡ (if in_section p || other then lock.taken else lock.free))
    × ((in_section p && other) ≡ false)

module _ (cnt first : ℕ) (lock : Lock) where
  print_string-Locked :
      (p : Pc) (other : Bool) (m : Shared lock.State)
      → Locked lock p other m.lock
      → let (m', p') = print_string cnt lock p m in Locked lock p' other m'.lock
  unfolding print_string
  print_string-Locked idle other m v = v
  print_string-Locked (locking str) true m (e, one) =
      rw (locking_busy cnt first lock str m (ap lock.try e ∙ lock.try-taken)) (e, refl)
  print_string-Locked (locking str) false m (e, one) =
      rw (locking_got cnt first lock str m (ap lock.try e ∙ lock.try-free)) (refl, refl)
  print_string-Locked (printing str i) other m (e, one) = elim (Bool-cases (ltb i cnt)) [
    | inl more ↦ rw more (e, one)
    | inr all ↦ rw (all, one) (ap lock.leave e ∙ lock.leave-taken, refl)
  ]
  print_string-Locked (counting str i) other m v = v

Locked-comm :
    (lock : Lock) (p q : Pc) (l : lock.State)
    → Locked lock p (in_section q) l
    → Locked lock q (in_section p) l
Locked-comm lock p q l (e, one) = ground (arith, e, one)

module _ (cnt : ℕ) (lock : Lock) where
  pub record Inv (c : Processor lock.State) : Type 0 where
    pub held : Locked lock c.process (handler_holds c.handler) c.shared.lock
    pub awake : c.handler ≢ some idle
    pub shut_off : is_running c.handler ≡ true → in_section c.process ≡ false

  returned-holds : (p : Pc) → handler_holds (returned p) ≡ in_section p
  returned-holds idle = refl
  returned-holds (locking str) = refl
  returned-holds (printing str i) = refl
  returned-holds (counting str i) = refl

  returned-awake : (p : Pc) → returned p ≢ some idle
  returned-awake idle e = cc
  returned-awake (locking str) e = cc
  returned-awake (printing str i) e = cc
  returned-awake (counting str i) e = cc

  step-Inv :
      (m : Shared lock.State) (p : Pc) (h : Option Pc)
      → let c : Processor lock.State = record { shared = m; process = p; handler = h } in
        Inv c → Inv (step cnt lock c)
  unfolding step
  step-Inv m p none v = record {
    held = print_string-Locked cnt 0 lock p false m v.held;
    awake = v.awake;
    shut_off = λ running. cc;
  }
  step-Inv m p (some h) v =
      let (m', h') = print_string cnt lock h m in
      let moved =
        print_string-Locked cnt 0 lock h (in_section p) m (Locked-comm lock p h m.lock v.held) in
      record {
        held = rw (returned-holds h') (Locked-comm lock h' p m'.lock moved);
        awake = returned-awake h';
        shut_off = λ running. v.shut_off refl;
      }

  interrupted-Inv :
      (m : Shared lock.State) (p : Pc) (h : Option Pc) (str : Text)
      → let c : Processor lock.State = record { shared = m; process = p; handler = h } in
        let_in cnt lock c ≡ true → Inv c → Inv (record c { handler = some (locking str) })
  interrupted-Inv m p none str open_irq v = record {
    held = v.held;
    awake = λ e. cc;
    shut_off = λ running. ground (arith, open_irq);
  }
  interrupted-Inv m p (some h) str open_irq v = cc

  Step-Inv : {c d : Processor lock.State} → Step cnt lock c d → Inv c → Inv d
  Step-Inv {c} goes_on v = step-Inv c.shared c.process c.handler v
  Step-Inv {c} (calls str at_rest quiet) v = record {
    held = subst (λ p. Locked lock p (handler_holds c.handler) c.shared.lock) at_rest v.held;
    awake = v.awake;
    shut_off = λ running. refl;
  }
  Step-Inv {c} (interrupted str open_irq) v =
      interrupted-Inv c.shared c.process c.handler str open_irq v

  pub Reach-Inv : {c : Processor lock.State} → Reach cnt lock c → Inv c
  Reach-Inv (here g) = record { held = (refl, refl); awake = λ e. cc; shut_off = λ running. cc }
  Reach-Inv (next path taken) = Step-Inv taken (Reach-Inv path)
