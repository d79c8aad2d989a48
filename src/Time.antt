-- ===== src/Time.antt =====
-- time/currenttime/demo0.c: waiting for a number of seconds, the time since the start, and the time
-- between two readings of a clock.
pub mod Older
pub mod Delay
pub mod Readings
pub mod Timer
mod Tests
use kernel_code.Prelude.{
  ℕ, ◌+◌, ◌-◌, ◌*◌, ◌/◌, ◌<◌, ◌%◌, ◌^◌, ◌≡◌, Bool, true, false, Option, none, some, List, [], ◌∷◌,
  if◌then◌else◌,
}

-- `jiffies` counts `hz` ticks in a second, with 32 bits; `time_before a b` is whether the reading `a` comes
-- before the reading `b`, if they are less than half of its range apart.
pub record Ticks : Type 0 where
  pub hz : ℕ
  pub time_before : ℕ → ℕ → Bool
  pub not_yet : (t d : ℕ) → 0 < d → d < 2 ^ 31 → time_before (t % 2 ^ 32) ((t + d) % 2 ^ 32) ≡ true
  pub since : (t d : ℕ) → d < 2 ^ 31 → time_before ((t + d) % 2 ^ 32) (t % 2 ^ 32) ≡ false

module _ (k : Ticks) where
  -- The loop of `mydelay` at tick `t`: each `schedule` takes the next number of ticks. The result is the
  -- tick at which the loop ends, or `none` where the list ends before.
  unfoldable pub wait : (end : ℕ) → (gaps : List ℕ) → (t : ℕ) → Option ℕ
  wait end [] t = if k.time_before (t % 2 ^ 32) end then none else some t
  wait end (gap ∷ gaps) t =
      let later = wait end gaps (t + gap) in
      if k.time_before (t % 2 ^ 32) end then later else some t

  unfoldable pub mydelay : (sec : ℕ) → (gaps : List ℕ) → (t : ℕ) → Option ℕ
  mydelay sec gaps t = wait ((t + sec * k.hz) % 2 ^ 32) gaps t

  -- The numbers that `up_time` prints: hours, minutes and seconds.
  unfoldable pub up_time : (jiffies : ℕ) → ℕ × ℕ × ℕ
  up_time jiffies = let sec = jiffies / k.hz in (sec / 3600, sec % 3600 / 60, sec % 60)

-- `struct timespec` or `struct timeval`: seconds, and a part of a second.
pub record Stamp : Type 0 where
  pub tv_sec : ℕ
  pub tv_part : ℕ

-- `(end.tv_sec - start.tv_sec)*NSPERSEC + end.tv_nsec - start.tv_nsec` with the 64 bits of `unsigned long
-- long`
unfoldable pub elapsed_nsec : (start end : Stamp) → ℕ
elapsed_nsec start end =
    ((end.tv_sec + 2 ^ 64 - start.tv_sec) * 10 ^ 9 + end.tv_part + 2 ^ 64 - start.tv_part) % 2 ^ 64

-- The same of microseconds with the 32 bits of `unsigned long`.
unfoldable pub elapsed_usec : (start end : Stamp) → ℕ
elapsed_usec start end =
    ((end.tv_sec + 2 ^ 32 - start.tv_sec) * 10 ^ 6 + end.tv_part + 2 ^ 32 - start.tv_part) % 2 ^ 32
