-- ===== src/Buzzer/Older/Laws.antt =====
-- At most one process has the buzzer open.
use kernel_code.Prelude.{
  ℕ, ◌+◌, ◌-◌, ◌<◌, ◌≤◌, ◌≡◌, refl, ap, ◌∙◌, none, some, pos, is_negative, arith, ◌==◌,
  if◌then◌else◌,
}
use kernel_code.Kernel.Errno.{ebusy}
use kernel_code.Kernel.Lock.{Lock}
use kernel_code.Buzzer.Older.{beep_open, beep_release}

module _ (lock : Lock) where
  -- The mutex, and how many processes have the device open.
  pub record Opened : Type 0 where
    pub mutex : lock.State
    pub users : ℕ

  abbrev pub closed : Opened
  closed = record { mutex = lock.free; users = 0 }

  abbrev pub open_beep : Opened → Opened
  open_beep s =
      let (ret, l) = beep_open lock s.mutex in
      record { mutex = l; users = if is_negative ret then s.users else s.users + 1 }

  -- Any process opens; one that has the device open closes it.
  pub data Step (s : Opened) : Opened → Type 0 where
    opens : Step s (open_beep s)
    closes :
        0 < s.users → Step s (record { mutex = beep_release lock s.mutex; users = s.users - 1 })

  pub data Reach : Opened → Type 0 where
    here : Reach closed
    next : {s t : Opened} → Reach s → Step s t → Reach t

  -- The mutex is taken exactly while one process has the device open.
  pub data Inv (s : Opened) : Type 0 where
    nobody : s.mutex ≡ lock.free → s.users ≡ 0 → Inv s
    somebody : s.mutex ≡ lock.taken → s.users ≡ 1 → Inv s

  beep_open-free : {l : lock.State} → l ≡ lock.free → beep_open lock l ≡ (pos 0, lock.taken)
  unfolding beep_open
  beep_open-free {l} e =
      let got : lock.try l ≡ some lock.taken = ap lock.try e ∙ lock.try-free in
      rw (got, beep_open) refl

  beep_open-taken : {l : lock.State} → l ≡ lock.taken → beep_open lock l ≡ (ebusy, l)
  unfolding beep_open
  beep_open-taken {l} e =
      let busy : lock.try l ≡ none = ap lock.try e ∙ lock.try-taken in rw (busy, beep_open) refl

  opens-Inv : (s : Opened) → Inv s → Inv (open_beep s)
  opens-Inv s (nobody l u) = rw (beep_open-free l) (somebody refl (omega arith))
  opens-Inv s (somebody l u) = rw (beep_open-taken l) (somebody l u)

  pub Reach-Inv : {s : Opened} → Reach s → Inv s
  unfolding beep_release
  Reach-Inv here = nobody refl refl
  Reach-Inv (next {s} path opens) = opens-Inv s (Reach-Inv path)
  Reach-Inv (next {s} path (closes some_user)) = elim (Reach-Inv path) [
    | nobody l u ↦ absurd (omega arith)
    | somebody l u ↦ nobody (ap lock.leave l ∙ lock.leave-taken) (omega arith)
  ]

  -- At most one process has the buzzer open; while one has, `beep_open` returns -EBUSY, and else it
  -- succeeds.
  pub beep_open_lem :
      {s : Opened}
      → Reach s
      → (s.users ≤ 1) × ((beep_open lock s.mutex).0 ≡ (if s.users == 0 then pos 0 else ebusy))
  beep_open_lem {s} path = opened_once (Reach-Inv path)
    where
      opened_once :
          Inv s
          → (s.users ≤ 1) × ((beep_open lock s.mutex).0 ≡ (if s.users == 0 then pos 0 else ebusy))
      opened_once (nobody l u) = rw (beep_open-free l, u) (omega arith, refl)
      opened_once (somebody l u) = rw (beep_open-taken l, u) (omega arith, refl)
