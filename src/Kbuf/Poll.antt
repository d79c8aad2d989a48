-- ===== src/Kbuf/Poll.antt =====
-- `kbuf_read`, `kbuf_write` and `kbuf_poll` of kbufchardrv_poll/kbuf.c.
pub mod Laws
pub mod Setup
use Prim.Native.Nat.{bit_or}
use kernel_code.Prelude.{ℕ, min, List, [], ℤ, pos, negsuc, ◌==◌, if◌then◌else◌}
use kernel_code.Kernel.Errno.{done, failed, eio}
use kernel_code.Kernel.Memory.{UserAccess}
use kernel_code.Kbuf.Script.{Reply, reply}
use kernel_code.Kbuf.Buffer.{
  Buffer, sz_512, sub_size, slice, shift_down, shrink, store_tail, grow, has_data, has_space,
}
use kernel_code.Kbuf.Waiting.{Device, Waiter, wake_readers, wake_writers}

module _ (user : UserAccess) (waiter : Waiter) where
  unfoldable pub read : (room cnt : ℕ) → Device → Reply × Device
  read room cnt d =
      if cnt == 0
      then (reply (pos cnt) [], d)
      else let (ret, d') = waiter.wait has_data d in
        let b = d'.buffer in
        let n = min cnt b.validlen in
        let (left, out) = user.copy_out room (slice b.mem 0 n) in
        elim ret [
          | failed e ↦ (reply (negsuc e) [], d')
          | done ↦
              if left == 0
              then (
                reply (pos n) out,
                wake_writers (record d' { buffer = shrink n (shift_down n b) }),
              )
              else (reply eio out, d')
        ]

  unfoldable pub write : (src : List ℕ) (cnt : ℕ) → Device → ℤ × Device
  write src cnt d =
      if cnt == 0
      then (pos cnt, d)
      else let (ret, d') = waiter.wait has_space d in
        let b = d'.buffer in
        let n = min cnt (sub_size sz_512 b.validlen) in
        let (left, bs) = user.copy_in src n in
        elim ret [
          | failed e ↦ (negsuc e, d')
          | done ↦
              if left == 0
              then (pos n, wake_readers (record d' { buffer = grow n (store_tail bs b) }))
              else (eio, record d' { buffer = store_tail bs b })
        ]

-- The bits of asm-generic/poll.h.
abbrev pub pollin : ℕ
pollin = 0x1

abbrev pub pollout : ℕ
pollout = 0x4

abbrev pub pollrdnorm : ℕ
pollrdnorm = 0x40

abbrev pub pollwrnorm : ℕ
pollwrnorm = 0x100

-- `poll_wait` only registers the process on the two queues.
unfoldable pub poll : Device → ℕ
poll d =
    let mask : ℕ = 0 in
    let mask' : ℕ = if has_data d.buffer then bit_or mask (bit_or pollin pollrdnorm) else mask in
    if has_space d.buffer then bit_or mask' (bit_or pollout pollwrnorm) else mask'
