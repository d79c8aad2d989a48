-- ===== src/App/Threads/Invariant.antt =====
-- What each thread keeps between its steps, whatever the other does.
use kernel_code.Prelude.{
  ℕ, ◌+◌, ◌-◌, ◌*◌, ◌<◌, ◌≤◌, ◌%◌, ◌^◌, ◌≡◌, refl, ap, ◌∙◌, Bool, true, false, ◌&&◌, ◌||◌, none,
  some, arith, ltb, Bool-cases, inl, inr, if◌then◌else◌,
}
use kernel_code.Kernel.Lock.{Lock}
use kernel_code.App.Threads.{
  Pc, testing, locking, loading, storing, leaving, finished, Thread, Shared, increment, decrement,
  thread_step,
}

abbrev pub holds : Pc → Bool
holds testing = false
holds locking = false
holds loading = true
holds (storing v) = true
holds leaving = true
holds finished = false

-- How often the thread has stored.
abbrev pub stored : Pc → (i : ℕ) → ℕ
stored leaving i = i + 1
stored _ i = i

-- A value that is about to be stored is that of the variable, counted.
abbrev pub Ready : (op : ℕ → ℕ) → Pc → (var : ℕ) → Type 0
Ready op (storing v) var = v ≡ op var
Ready op _ var = Unit

-- A thread that has finished has made all its rounds.
abbrev pub Rounds : (cnt : ℕ) → Pc → (i : ℕ) → Type 0
Rounds cnt testing i = i ≤ cnt
Rounds cnt finished i = i ≡ cnt
Rounds cnt _ i = i < cnt

-- What a thread and the shared state keep, where `other` says whether the other thread holds the lock.
pub record Keeps (cnt : ℕ) (lock : Lock) (op : ℕ → ℕ) (other : Bool) (t : Thread)
    (m : Shared lock.State) : Type 0 where
  pub held : m.lock ≡ (if holds t.pc || other then lock.taken else lock.free)
  pub alone : (holds t.pc && other) ≡ false
  pub ready : Ready op t.pc m.var
  pub rounds : Rounds cnt t.pc t.i

-- What a step does to the variable and to the count of stores.
abbrev pub counted : (op : ℕ → ℕ) → Pc → (var : ℕ) → ℕ
counted op (storing v) var = op var
counted op _ var = var

abbrev pub stores : Pc → ℕ
stores (storing v) = 1
stores _ = 0

module _ (cnt : ℕ) (lock : Lock) (op : ℕ → ℕ) where
  lock_busy :
      (i : ℕ) (m : Shared lock.State)
      → lock.try m.lock ≡ none
      → let t : Thread = record { pc = locking; i = i } in thread_step cnt lock op t m ≡ (t, m)
  unfolding thread_step
  lock_busy i m busy = rw (busy, thread_step)

  lock_got :
      (i : ℕ) (m : Shared lock.State) {l : lock.State}
      → lock.try m.lock ≡ some l
      → thread_step cnt lock op (record { pc = locking; i = i }) m
        ≡ (record { pc = loading; i = i }, record m { lock = l })
  unfolding thread_step
  lock_got i m got = rw (got, thread_step)

  pub thread_step-Keeps :
      (other : Bool) (p : Pc) (i : ℕ) (m : Shared lock.State)
      → let t : Thread = record { pc = p; i = i } in
        Keeps cnt lock op other t m
        → let (t', m') = thread_step cnt lock op t m in
          Keeps cnt lock op other t' m'
          × (m'.var ≡ counted op p m.var)
          × (stored t'.pc t'.i ≡ stored p i + stores p)
  unfolding thread_step
  thread_step-Keeps other testing i m v = elim (Bool-cases (ltb i cnt)) [
    | inl more ↦ rw more (
        let now : Keeps cnt lock op other (record { pc = locking; i = i }) m = record {
          held = v.held;
          alone = v.alone;
          ready = tt;
          rounds = ground (arith, more);
        } in
        (now, refl, omega arith))
    | inr all ↦ rw all (
        let now : Keeps cnt lock op other (record { pc = finished; i = i }) m = record {
          held = v.held;
          alone = v.alone;
          ready = tt;
          rounds = ground (arith, all, v.rounds);
        } in
        (now, refl, omega arith))
  ]
  thread_step-Keeps true locking i m v =
      rw (lock_busy i m (ap lock.try v.held ∙ lock.try-taken)) (v, refl, omega arith)
  thread_step-Keeps false locking i m v =
      rw (lock_got i m (ap lock.try v.held ∙ lock.try-free))
        (record { held = refl; alone = refl; ready = tt; rounds = v.rounds }, refl, omega arith)
  thread_step-Keeps other loading i m v = (
    record { held = v.held; alone = v.alone; ready = refl; rounds = v.rounds },
    refl,
    omega arith,
  )
  thread_step-Keeps other (storing w) i m v =
      (record { held = v.held; alone = v.alone; ready = tt; rounds = v.rounds }, v.ready, refl)
  thread_step-Keeps other leaving i m v = (
    record {
      held = rw v.alone (ap lock.leave v.held ∙ lock.leave-taken);
      alone = refl;
      ready = tt;
      rounds = omega (arith, v.rounds);
    },
    refl,
    omega arith,
  )
  thread_step-Keeps other finished i m v = (v, refl, omega arith)

  -- The other thread keeps what it keeps, since only the holder of the lock stores.
  pub Ready-counted :
      (op' : ℕ → ℕ) (p q : Pc) (var : ℕ)
      → (holds p && holds q) ≡ false
      → Ready op q var
      → Ready op q (counted op' p var)
  Ready-counted op' p testing var one r = tt
  Ready-counted op' p locking var one r = tt
  Ready-counted op' p loading var one r = tt
  Ready-counted op' p leaving var one r = tt
  Ready-counted op' p finished var one r = tt
  Ready-counted op' testing (storing w) var one r = r
  Ready-counted op' locking (storing w) var one r = r
  Ready-counted op' loading (storing w) var one r = r
  Ready-counted op' leaving (storing w) var one r = r
  Ready-counted op' finished (storing w) var one r = r
  Ready-counted op' (storing u) (storing w) var one r = cc

-- The variable after `a` counts up and `b` down.
abbrev pub value : (first a b : ℕ) → ℕ
value first a b = (first + a + (2 ^ 32 - 1) * b) % 2 ^ 32

module _ (first a b : ℕ) where
  pub value_up :
      (p : Pc) {v : ℕ} → v ≡ value first a b → counted increment p v ≡ value first (a + stores p) b
  value_up testing e = omega (arith, e)
  value_up locking e = omega (arith, e)
  value_up loading e = omega (arith, e)
  value_up (storing w) e = omega (arith, e)
  value_up leaving e = omega (arith, e)
  value_up finished e = omega (arith, e)

  pub value_down :
      (p : Pc) {v : ℕ} → v ≡ value first a b → counted decrement p v ≡ value first a (b + stores p)
  value_down testing e = omega (arith, e)
  value_down locking e = omega (arith, e)
  value_down loading e = omega (arith, e)
  value_down (storing w) e = omega (arith, e)
  value_down leaving e = omega (arith, e)
  value_down finished e = omega (arith, e)
