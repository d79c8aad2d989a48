-- ===== src/Kbuf/Block.antt =====
-- kbufchardrv_block/kbuf.c: `kbuf_read` and `kbuf_write` wait for data and for space.
pub mod Laws
use kernel_code.Prelude.{ℕ, min, List, [], ℤ, pos, negsuc, ◌==◌, if◌then◌else◌}
use kernel_code.Kernel.Errno.{done, failed, eio}
use kernel_code.Kernel.World.{World}
use kernel_code.Kernel.Device.{Env}
use kernel_code.Kernel.Memory.{UserAccess}
use kernel_code.Kbuf.Setup
use kernel_code.Kbuf.Script.{Reply, reply}
use kernel_code.Kbuf.Buffer.{
  Buffer, sz_512, sub_size, slice, shift_down, shrink, store_tail, grow, has_data, has_space,
}
use kernel_code.Kbuf.Waiting.{Device, Waiter, wake_readers, wake_writers}

module _ (user : UserAccess) (waiter : Waiter) where
  -- What the wait returns is not looked at.
  unfoldable pub read : (room cnt : ℕ) → Device → Reply × Device
  read room cnt d =
      if cnt == 0
      then (reply (pos cnt) [], d)
      else let (ignored, d') = waiter.wait has_data d in
        let b = d'.buffer in
        let n = min cnt b.validlen in
        let (left, out) = user.copy_out room (slice b.mem 0 n) in
        if left == 0
        then (reply (pos n) out, wake_writers (record d' { buffer = shrink n (shift_down n b) }))
        else (reply eio out, d')

  unfoldable pub write : (src : List ℕ) (cnt : ℕ) → Device → ℤ × Device
  write src cnt d =
      if cnt == 0
      then (pos cnt, d)
      else let (ret, d') = waiter.wait has_space d in
        let b = d'.buffer in
        let n = min cnt (sub_size sz_512 b.validlen) in
        let (left, bs) = user.copy_in src n in
        elim ret [
          | failed e ↦ (negsuc e, d')
          | done ↦
              if left == 0
              then (pos n, wake_readers (record d' { buffer = grow n (store_tail bs b) }))
              else (eio, record d' { buffer = store_tail bs b })
        ]

-- `init_waitqueue_head` acquires nothing.
unfoldable pub init : Env → (major assigned : ℕ) → World → ℤ × ℕ × World
init env major assigned w = Setup.init env major assigned w

unfoldable pub exit : World → World
exit w = Setup.exit w
