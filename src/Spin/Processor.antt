-- ===== src/Spin/Processor.antt =====
-- locks/spinlock/spinlock_irqsave and kernel_code_v1/lock/spin_irq: a processor on which a process prints,
-- and the interrupt of a key prints on top of it, for the same spin lock. Other processors are left out.
pub mod Invariant
pub mod Laws
mod Tests
use kernel_code.Prelude.{
  subst, ◌%◌, ◌^◌, List, [], ◌∷◌, ◌++◌, ◌||◌, ltb, ℕ, zero, suc, ◌+◌, ◌*◌, ◌≡◌, ◌≢◌, refl, sym, ap,
  ◌∙◌, Bool, true, false, not, ◌&&◌, Option, none, some, arith, if◌then◌else◌, Bool-cases, inl, inr,
}
use kernel_code.Kernel.Lock.{Lock}
use kernel_code.Spin.{Text, Pc, idle, locking, printing, counting, Shared, print_string}
use kernel_code.Spin.Invariant.{in_section}
use kernel_code.Spin.Laws.{locking_busy, locking_got}

-- `handler` is where the interrupt function stands, if one is running.
pub record Processor (L : Type 0) : Type 0 where
  pub shared : Shared L
  pub process : Pc
  pub handler : Option Pc

-- The interrupt function is over when its call is.
abbrev pub returned : Pc → Option Pc
returned idle = none
returned p = some p

-- Whether the interrupt function holds the lock, and whether one is running at all.
abbrev pub handler_holds : Option Pc → Bool
handler_holds none = false
handler_holds (some h) = in_section h

abbrev pub is_running : Option Pc → Bool
is_running none = false
is_running (some h) = true

-- The lock shuts interrupts off on its processor while a process holds it.
module _ (cnt : ℕ) (lock : Lock) where
  -- The next step: of the interrupt function if one is running, else of the process.
  unfoldable pub step : Processor lock.State → Processor lock.State
  step c = elim c.handler [
    | none ↦
        let (m, p) = print_string cnt lock c.process c.shared in
        record c { shared = m; process = p }
    | some h ↦
        let (m, p) = print_string cnt lock h c.shared in
        record c { shared = m; handler = returned p }
  ]

  unfoldable pub steps : ℕ → Processor lock.State → Processor lock.State
  steps zero c = c
  steps (suc n) c = steps n (step c)

  -- Whether an interrupt is let in.
  abbrev pub let_in : Processor lock.State → Bool
  let_in c = elim c.handler [ none ↦ not (in_section c.process) | some h ↦ false ]

  pub data Step (c : Processor lock.State) : Processor lock.State → Type 0 where
    goes_on : Step c (step c)
    calls :
        (str : Text)
        → c.process ≡ idle
        → c.handler ≡ none
        → Step c (record c { process = locking str })
    interrupted :
        (str : Text) → let_in c ≡ true → Step c (record c { handler = some (locking str) })

  pub data Reach : Processor lock.State → Type 0 where
    here :
        (g : ℕ)
        → Reach (record {
          shared = record { g_count = g; lock = lock.free; log = [] };
          process = idle;
          handler = none;
        })
    next : {c d : Processor lock.State} → Reach c → Step c d → Reach d
