-- ===== src/Kbuf/Locked.antt =====
-- `kbuf_read` and `kbuf_write` of locks/mutex/kbuf.c and locks/semaphore/kbuf.c, which hold a lock
-- over the whole access, as steps of processes that interleave.
pub mod Invariant
pub mod Section
pub mod Moves
pub mod Serial
use kernel_code.Prelude.{
  ℕ, min, ◌≡◌, Bool, true, false, Option, none, some, List, [], ◌∷◌, ℤ, pos, ◌==◌, if◌then◌else◌,
}
use kernel_code.Kernel.Errno.{eio, eagain, enospc}
use kernel_code.Kernel.Memory.{UserAccess}
use kernel_code.Kernel.Lock.{Lock}
use kernel_code.Kbuf.Script.{Op, get, put, Reply, reply}
use kernel_code.Kbuf.Buffer.{
  Buffer, sz_512, sub_size, slice, shift_down, shrink, store_tail, grow, empty_buffer,
}

-- Where a process stands in the driver.
pub data Pc : Type 0 where
  idle : Pc  -- not in a call
  locking : Op → Pc  -- in `mutex_lock` or `down`
  entered : Op → Pc  -- holds the lock, before the test of `validlen`
  copied : Op → (n : ℕ) (out : List ℕ) → Pc  -- read: before `memmove`
  shifted : Op → (n : ℕ) (out : List ℕ) → Pc  -- read: in `mdelay`, before `validlen -= cnt`
  stored : Op → (n : ℕ) → Pc  -- write: in `mdelay`, before `validlen += cnt`
  leaving : Op → Reply → Pc  -- before `mutex_unlock` or `up`

-- The calls that have returned, newest first.
abbrev pub Log : Type 0
Log = List (Op × Reply)

pub record Shared (L : Type 0) : Type 0 where
  pub buffer : Buffer
  pub lock : L
  pub log : Log

abbrev pub asks_nothing : Op → Bool
asks_nothing (get room cnt) = cnt == 0
asks_nothing (put src cnt) = cnt == 0

module _ (user : UserAccess) (lock : Lock) where
  -- A process that is not in a call begins one; one that asks for no bytes returns at once.
  unfoldable pub begin : Op → Shared lock.State → Shared lock.State × Pc
  begin op m =
      if asks_nothing op
      then (record m { log = (op, reply (pos 0) []) ∷ m.log }, idle)
      else (m, locking op)

  -- The next step of a process that is in a call.
  unfoldable pub advance : Pc → Shared lock.State → Shared lock.State × Pc
  advance idle m = (m, idle)
  advance (locking op) m = elim (lock.try m.lock) [
    | none ↦ (m, locking op)
    | some l ↦ (record m { lock = l }, entered op)
  ]
  advance (entered (get room cnt)) m =
      let op = get room cnt in
      let n = min cnt m.buffer.validlen in
      let (left, out) = user.copy_out room (slice m.buffer.mem 0 n) in
      if m.buffer.validlen == 0
      then (m, leaving op (reply eagain []))
      else if left == 0
      then (m, copied op n out)
      else (m, leaving op (reply eio out))
  advance (entered (put src cnt)) m =
      let op = put src cnt in
      let n = min cnt (sub_size sz_512 m.buffer.validlen) in
      let (left, bs) = user.copy_in src n in
      if m.buffer.validlen == sz_512
      then (m, leaving op (reply enospc []))
      else if left == 0
      then (record m { buffer = store_tail bs m.buffer }, stored op n)
      else (record m { buffer = store_tail bs m.buffer }, leaving op (reply eio []))
  advance (copied op n out) m = (record m { buffer = shift_down n m.buffer }, shifted op n out)
  advance (shifted op n out) m =
      (record m { buffer = shrink n m.buffer }, leaving op (reply (pos n) out))
  advance (stored op n) m = (record m { buffer = grow n m.buffer }, leaving op (reply (pos n) []))
  advance (leaving op r) m = (record m { lock = lock.leave m.lock; log = (op, r) ∷ m.log }, idle)

  pub record System : Type 0 where
    pub shared : Shared lock.State
    pub pc : ℕ → Pc

  abbrev pub update : (ℕ → Pc) → ℕ → Pc → ℕ → Pc
  update pc i p j = if i == j then p else pc j

  abbrev pub put_back : System → ℕ → Shared lock.State × Pc → System
  put_back s i r = record { shared = r.0; pc = update s.pc i r.1 }

  -- One step of one of any number of processes.
  pub data Step (s : System) : System → Type 0 where
    starts : (i : ℕ) (op : Op) → s.pc i ≡ idle → Step s (put_back s i (begin op s.shared))
    moves : (i : ℕ) → Step s (put_back s i (advance (s.pc i) s.shared))

  -- `kbuf_init` leaves the kbuf empty and the lock free.
  abbrev pub start : System
  start = record {
    shared = record { buffer = empty_buffer; lock = lock.free; log = [] };
    pc = λ i. idle;
  }

  pub data Reach : System → Type 0 where
    here : Reach start
    next : {s t : System} → Reach s → Step s t → Reach t
