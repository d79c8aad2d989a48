-- ===== src/Spin/Tests.antt =====
-- The drivers with a spin lock at concrete inputs.
use kernel_code.Prelude.{ℕ, ◌≡◌, refl, Bool, false, List, [], ◌∷◌, arith}
use kernel_code.Kernel.Lock.Simple.{mutex}
use kernel_code.Spin.{
  Text, locking, System, start, put_back, print_string, Reach, here, next, calls, moves,
}
use kernel_code.Spin.Groups.{repeated, numbered, number_after}
use kernel_code.Spin.Laws.{lines_together}
use kernel_code.Spin.Setup.{Opened, none_yet, opens}
use kernel_code.Spin.Invariant.{in_section}
use kernel_code.Spin.Older.Trylock

abbrev hello : Text
hello = 104 ∷ 105 ∷ []

-- A caller with a string to print once.
abbrev called : System 1 mutex
called = put_back 1 mutex (start 1 mutex 7) 0 ((start 1 mutex 7).shared, locking hello)

abbrev moved : System 1 mutex → System 1 mutex
moved s = put_back 1 mutex s 0 (print_string 1 mutex (s.pc 0) s.shared)

abbrev finished : System 1 mutex
finished = moved (moved (moved (moved called)))

finished-Reach : Reach 1 mutex 7 finished
finished-Reach =
    next (next (next (next (next here (calls 0 hello refl)) (moves 0)) (moves 0)) (moves 0))
      (moves 0)

finished-log : finished.shared.log ≡ (7, hello) ∷ []
unfolding print_string
finished-log = refl

nobody : (i : ℕ) → in_section (finished.pc i) ≡ false
unfolding print_string
nobody i = ground arith

lines_together_example :
    (strs : List Text) × (finished.shared.log ≡ numbered 7 (repeated 1 strs))
    × (finished.shared.g_count ≡ number_after 7 (repeated 1 strs))
lines_together_example = lines_together 1 7 mutex finished-Reach nobody

abbrev once : Bool
once = (Trylock.demo_open mutex false).1

once-Opened : Opened mutex 1 once
unfolding Trylock.demo_open
once-Opened = opens none_yet refl
