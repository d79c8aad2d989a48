-- ===== src/Spin.antt =====
-- locks/spinlock/spinlock/demo.c: processes that print a string several times, numbered by a shared
-- counter, under a spin lock, as steps that interleave. The other drivers of this kind, which are
-- also entered by interrupts or bottom halves, are in Keyed and Older.
pub mod Groups
pub mod Invariant
pub mod Keyed
pub mod Older
pub mod Laws
pub mod Setup
pub mod Processor
mod Tests
use kernel_code.Prelude.{
  ℕ, ◌+◌, ◌%◌, ◌^◌, ◌≡◌, none, some, List, [], ◌∷◌, ◌++◌, ℤ, ◌==◌, ltb, if◌then◌else◌,
}
use kernel_code.Kernel.Errno.{code, done, failed}
use kernel_code.Kernel.World.{resource, misc, World, acquire, release}
use kernel_code.Kernel.Device.{Env}
use kernel_code.Kernel.Lock.{Lock}

-- The bytes of a string.
abbrev pub Text : Type 0
Text = List ℕ

-- Where a process, an interrupt or a bottom half stands in `print_string`.
pub data Pc : Type 0 where
  idle : Pc  -- not in a call
  locking : Text → Pc  -- in `spin_lock`
  printing : Text → (i : ℕ) → Pc  -- at the test of the loop
  counting : Text → (i : ℕ) → Pc  -- before `g_count++`

-- `log` holds the lines that were printed, each its number and its string, oldest first.
pub record Shared (L : Type 0) : Type 0 where
  pub g_count : ℕ
  pub lock : L
  pub log : List (ℕ × Text)

-- `out_string_cnt` is how often a string is printed.
module _ (out_string_cnt : ℕ) (lock : Lock) where
  -- The next step of a call that stands at the given place.
  unfoldable pub print_string : Pc → Shared lock.State → Shared lock.State × Pc
  print_string idle m = (m, idle)
  print_string (locking str) m = elim (lock.try m.lock) [
    | none ↦ (m, locking str)
    | some l ↦ (record m { lock = l }, printing str 0)
  ]
  print_string (printing str i) m =
      if ltb i out_string_cnt
      then (record m { log = m.log ++ (m.g_count, str) ∷ [] }, counting str i)
      else (record m { lock = lock.leave m.lock }, idle)
  print_string (counting str i) m =
      (record m { g_count = (m.g_count + 1) % 2 ^ 32 }, printing str (i + 1))

  pub record System : Type 0 where
    pub shared : Shared lock.State
    pub pc : ℕ → Pc

  abbrev pub update : (ℕ → Pc) → ℕ → Pc → ℕ → Pc
  update pc i p j = if i == j then p else pc j

  abbrev pub put_back : System → ℕ → Shared lock.State × Pc → System
  put_back s i r = record { shared = r.0; pc = update s.pc i r.1 }

  -- One step of one of any number of callers; a call of `spin_ioctl` begins with its string.
  pub data Step (s : System) : System → Type 0 where
    calls : (i : ℕ) (str : Text) → s.pc i ≡ idle → Step s (put_back s i (s.shared, locking str))
    moves : (i : ℕ) → Step s (put_back s i (print_string (s.pc i) s.shared))

  -- Nothing is printed, the counter stands at `first`.
  abbrev pub start : ℕ → System
  start first = record {
    shared = record { g_count = first; lock = lock.free; log = [] };
    pc = λ i. idle;
  }

  pub data Reach (first : ℕ) : System → Type 0 where
    here : Reach first (start first)
    next : {s t : System} → Reach first s → Step s t → Reach first t

-- `misc_register` and `misc_deregister`; `spin_lock_init` acquires nothing.
unfoldable pub init : Env → World → ℤ × World
init env w = elim (env (resource misc 0)) [
  | failed e ↦ (code (failed e), w)
  | done ↦ (code done, acquire (resource misc 0) w)
]

unfoldable pub exit : World → World
exit w = release (resource misc 0) w
