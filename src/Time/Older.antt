-- ===== src/Time/Older.antt =====
-- kernel_code_v1/kernel_time/demo2.c: as time/currenttime/demo0.c, with microseconds computed from nanoseconds.
use kernel_code.Prelude.{ℕ, ◌+◌, ◌-◌, ◌*◌, ◌/◌, ◌%◌, List, Option, ℤ, pos, neg, leb, if◌then◌else◌}
use kernel_code.Time
use kernel_code.Time.{Ticks, Stamp}

module _ (k : Ticks) where
  unfoldable pub mydelay : (s : ℕ) → (gaps : List ℕ) → (t : ℕ) → Option ℕ
  mydelay s gaps t = Time.mydelay k s gaps t

  unfoldable pub display_time : (jiffies : ℕ) → ℕ × ℕ × ℕ
  display_time jiffies = let s = jiffies / k.hz in (s / 3600, s % 3600 / 60, s % 60)

-- a - b + c of an `int`, where c may be negative
abbrev pub less : ℕ → ℕ → ℤ
less a b = if leb b a then pos (a - b) else neg (b - a)

-- `(t1.tv_sec - t0.tv_sec)*1000000 + (t1.tv_nsec - t0.tv_nsec)/1000`, where the seconds do not go
-- back; the division of a negative number rounds towards 0.
unfoldable pub us : (t0 t1 : Stamp) → ℤ
us t0 t1 =
    let sec = (t1.tv_sec - t0.tv_sec) * 1000000 in
    if leb t0.tv_part t1.tv_part
    then pos (sec + (t1.tv_part - t0.tv_part) / 1000)
    else less sec ((t0.tv_part - t1.tv_part) / 1000)
