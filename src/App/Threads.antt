-- ===== src/App/Threads.antt =====
-- locks/app/main.c: a thread that counts a variable up and one that counts it down, under a spin lock, as
-- steps that interleave.
pub mod Invariant
pub mod Laws
mod Tests
use kernel_code.Prelude.{ℕ, ◌+◌, ◌-◌, ◌%◌, ◌^◌, Option, none, some, true, false, ltb, if◌then◌else◌}
use kernel_code.Kernel.Lock.{Lock}

-- Where a thread stands in its loop; the count of the variable takes a load and a store.
pub data Pc : Type 0 where
  testing : Pc  -- at the test of the loop
  locking : Pc  -- in `pthread_spin_lock`
  loading : Pc
  storing : (value : ℕ) → Pc
  leaving : Pc  -- before `pthread_spin_unlock`
  finished : Pc

pub record Thread : Type 0 where
  pub pc : Pc
  pub i : ℕ

-- The variable `var`, as the 32 bits of an `int`.
pub record Shared (L : Type 0) : Type 0 where
  pub var : ℕ
  pub lock : L

-- `(*(int *)data)++` and `(*(int *)data)--`
abbrev pub increment : ℕ → ℕ
increment v = (v + 1) % 2 ^ 32

abbrev pub decrement : ℕ → ℕ
decrement v = (v + (2 ^ 32 - 1)) % 2 ^ 32

module _ (cnt : ℕ) (lock : Lock) where
  -- The next step of a thread that counts by `op`.
  unfoldable pub thread_step :
      (op : ℕ → ℕ) → Thread → Shared lock.State → Thread × Shared lock.State
  thread_step op t m = elim t.pc [
    | testing ↦
        if ltb t.i cnt then (record t { pc = locking }, m) else (record t { pc = finished }, m)
    | locking ↦ elim (lock.try m.lock) [
      | none ↦ (t, m)
      | some l ↦ (record t { pc = loading }, record m { lock = l })
    ]
    | loading ↦ (record t { pc = storing (op m.var) }, m)
    | storing v ↦ (record t { pc = leaving }, record m { var = v })
    | leaving ↦ (record { pc = testing; i = t.i + 1 }, record m { lock = lock.leave m.lock })
    | finished ↦ (t, m)
  ]

  unfoldable pub do_thread_fool0 : Thread → Shared lock.State → Thread × Shared lock.State
  do_thread_fool0 t m = thread_step increment t m

  unfoldable pub do_thread_fool1 : Thread → Shared lock.State → Thread × Shared lock.State
  do_thread_fool1 t m = thread_step decrement t m

  pub record System : Type 0 where
    pub up : Thread
    pub down : Thread
    pub shared : Shared lock.State

  abbrev pub step_up : System → System
  step_up s = let (t, m) = do_thread_fool0 s.up s.shared in record s { up = t; shared = m }

  abbrev pub step_down : System → System
  step_down s = let (t, m) = do_thread_fool1 s.down s.shared in record s { down = t; shared = m }

  pub data Step (s : System) : System → Type 0 where
    ups : Step s (step_up s)
    downs : Step s (step_down s)

  abbrev pub start : (var : ℕ) → System
  start var = record {
    up = record { pc = testing; i = 0 };
    down = record { pc = testing; i = 0 };
    shared = record { var = var; lock = lock.free };
  }

  pub data Reach (var : ℕ) : System → Type 0 where
    here : Reach var (start var)
    next : {s t : System} → Reach var s → Step s t → Reach var t
