-- ===== src/Time/Readings.antt =====
-- The time since the start and the time between two readings.
use kernel_code.Prelude.{
  ℕ, ◌+◌, ◌-◌, ◌*◌, ◌/◌, ◌<◌, ◌≤◌, ◌%◌, ◌^◌, ◌≡◌, ℤ, pos, negsuc, is_negative, false, arith,
}
use kernel_code.Time.{Ticks, up_time, Stamp, elapsed_nsec, elapsed_usec}
use kernel_code.Time.Older.{us}

-- The number without its sign.
abbrev pub magnitude : ℤ → ℕ
magnitude (pos n) = n
magnitude (negsuc n) = n + 1

-- `up_time` shows the seconds since the start, with minutes and seconds below 60.
pub up_time_lem :
    (k : Ticks) (jiffies : ℕ)
    → let (hour, min, sec) = up_time k jiffies in
      (hour * 3600 + min * 60 + sec ≡ jiffies / k.hz) × (min < 60) × (sec < 60)
unfolding up_time
up_time_lem k jiffies = omega arith

-- The ticks of a clock with `unit` parts in a second.
abbrev pub total : ℕ → Stamp → ℕ
total unit s = s.tv_sec * unit + s.tv_part

-- Of two readings of which the second is not before the first, `current_kernel_time` and the 64 bits of
-- the difference give the nanoseconds between them, though the part of a second may be less in the
-- second reading.
pub elapsed_nsec_lem :
    (start end : Stamp)
    → start.tv_sec ≤ end.tv_sec
    → end.tv_sec < 2 ^ 31
    → start.tv_part < 10 ^ 9
    → end.tv_part < 10 ^ 9
    → total (10 ^ 9) start ≤ total (10 ^ 9) end
    → elapsed_nsec start end ≡ total (10 ^ 9) end - total (10 ^ 9) start
unfolding elapsed_nsec
elapsed_nsec_lem start end secs small a b le = omega arith

-- The 32 bits of the difference of two `do_gettimeofday` are the microseconds between them, if these are
-- fewer than 2^32, a little more than 71 minutes; else they are the rest by 2^32.
pub elapsed_usec_lem :
    (start end : Stamp)
    → start.tv_sec ≤ end.tv_sec
    → end.tv_sec < 2 ^ 31
    → start.tv_part < 10 ^ 6
    → end.tv_part < 10 ^ 6
    → total (10 ^ 6) start ≤ total (10 ^ 6) end
    → elapsed_usec start end ≡ (total (10 ^ 6) end - total (10 ^ 6) start) % 2 ^ 32
unfolding elapsed_usec
elapsed_usec_lem start end secs small a b le = omega arith

-- The microseconds that kernel_code_v1/kernel_time computes from nanoseconds are never negative if the
-- second reading is not before the first, and off by less than one microsecond, to either side.
pub us_bounds :
    (t0 t1 : Stamp)
    → t0.tv_sec ≤ t1.tv_sec
    → t0.tv_part < 10 ^ 9
    → t1.tv_part < 10 ^ 9
    → total (10 ^ 9) t0 ≤ total (10 ^ 9) t1
    → let ns = total (10 ^ 9) t1 - total (10 ^ 9) t0 in
      (is_negative (us t0 t1) ≡ false)
      × (magnitude (us t0 t1) * 1000 < ns + 1000)
      × (ns < magnitude (us t0 t1) * 1000 + 1000)
unfolding us
us_bounds t0 t1 secs a b le = ground arith
