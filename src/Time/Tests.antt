-- ===== src/Time/Tests.antt =====
-- The time at concrete readings.
use kernel_code.Prelude.{ℕ, ◌+◌, ◌-◌, ◌<◌, ◌%◌, ◌^◌, ◌≡◌, true, false, [], ◌∷◌, arith, leb, Bool}
use kernel_code.Time.{Ticks, mydelay, Stamp}
use kernel_code.Time.Delay.{EndsAt, mydelay_lem}

-- Whether the difference, as a signed number of 32 bits, is below 0.
abbrev before : ℕ → ℕ → Bool
before a b = leb (2 ^ 31) ((a + 2 ^ 32 - b) % 2 ^ 32)

before-later : (t d : ℕ) → 0 < d → d < 2 ^ 31 → before (t % 2 ^ 32) ((t + d) % 2 ^ 32) ≡ true
before-later t d lo hi = ground arith

before-since : (t d : ℕ) → d < 2 ^ 31 → before ((t + d) % 2 ^ 32) (t % 2 ^ 32) ≡ false
before-since t d hi = ground arith

abbrev wrapping : Ticks
wrapping = record { hz = 2; time_before = before; not_yet = before-later; since = before-since }

-- One second from just before `jiffies` wraps.
mydelay_lem_example :
    EndsAt wrapping 1 (2 ^ 32 + 1) (mydelay wrapping 1 (1 ∷ 1 ∷ 1 ∷ []) (2 ^ 32 - 1))
mydelay_lem_example =
    mydelay_lem wrapping 1 1 (2 ^ 32 - 1) (1 ∷ 1 ∷ 1 ∷ []) (omega arith) (omega arith)
      (omega arith, omega arith, (omega arith, omega arith, (omega arith, omega arith, tt)))
      (omega arith)

-- From 3 s 999999999 ns to 5 s 1 ns.
abbrev first : Stamp
first = record { tv_sec = 3; tv_part = 999999999 }

abbrev second : Stamp
second = record { tv_sec = 5; tv_part = 1 }
