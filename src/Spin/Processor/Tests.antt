-- ===== src/Spin/Processor/Tests.antt =====
-- The processor at concrete states.
use kernel_code.Prelude.{◌≡◌, refl, false, none, some, [], ◌∷◌}
use kernel_code.Kernel.Lock.Simple.{mutex}
use kernel_code.Spin.{locking, idle}
use kernel_code.Spin.Processor.{Processor, Reach, here, next, interrupted, steps}
use kernel_code.Spin.Processor.Laws.{interrupt_returns}
use kernel_code.Prelude.{Bool}

abbrev start : Processor Bool
start = record {
  shared = record { g_count = 0; lock = false; log = [] };
  process = idle;
  handler = none;
}

-- An interrupt comes while the process is not in a call.
abbrev woken : Processor Bool
woken = record start { handler = some (locking (107 ∷ [])) }

woken-Reach : Reach 3 mutex woken
woken-Reach = next (here 0) (interrupted (107 ∷ []) refl)

interrupt_returns_example : steps 3 mutex 8 woken ≡ record {
  shared = record {
    g_count = 3;
    lock = false;
    log = (0, 107 ∷ []) ∷ (1, 107 ∷ []) ∷ (2, 107 ∷ []) ∷ [];
  };
  process = idle;
  handler = none;
}
interrupt_returns_example = interrupt_returns 3 mutex (107 ∷ []) woken-Reach refl
