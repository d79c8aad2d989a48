-- ===== src/Kbuf/Nonblocking.antt =====
-- `kbuf_read` and `kbuf_write` of kbufchardrv/kbuf.c, on the kbuf of one open file.
pub mod Refine
pub mod Stream
use kernel_code.Prelude.{
  ℕ, ◌-◌, min, List, [], ◌∷◌, ◌++◌, ℤ, pos, negsuc, length, ◌==◌, if◌then◌else◌,
}
use kernel_code.Kernel.Errno.{eio, eagain, enospc}
use kernel_code.Kernel.Memory.{UserAccess}
use kernel_code.Kbuf.Script.{Reply, reply, Op, get, put}
use kernel_code.Kbuf.Buffer.{Buffer, sz_512, sub_size, slice, shift_down, shrink, store_tail, grow}

module _ (user : UserAccess) where
  -- The process asks for `cnt` bytes, and its buffer can hold `room`.
  unfoldable pub read : (room cnt : ℕ) → Buffer → Reply × Buffer
  read room cnt b =
      if cnt == 0
      then (reply (pos cnt) [], b)
      else if b.validlen == 0
      then (reply eagain [], b)
      else let n = min cnt b.validlen in
        let (left, out) = user.copy_out room (slice b.mem 0 n) in
        if left == 0 then (reply (pos n) out, shrink n (shift_down n b)) else (reply eio out, b)

  -- The process offers `cnt` bytes, and `src` is what it can read there.
  unfoldable pub write : (src : List ℕ) (cnt : ℕ) → Buffer → ℤ × Buffer
  write src cnt b =
      if cnt == 0
      then (pos cnt, b)
      else if b.validlen == sz_512
      then (enospc, b)
      else let n = min cnt (sub_size sz_512 b.validlen) in
        let (left, bs) = user.copy_in src n in
        if left == 0 then (pos n, grow n (store_tail bs b)) else (eio, store_tail bs b)

  -- One call, and the calls of a script one after another.
  unfoldable pub step : Op → Buffer → Reply × Buffer
  step (get room cnt) b = read room cnt b
  step (put src cnt) b = let (r, b') = write src cnt b in (reply r [], b')

  unfoldable pub run : List Op → Buffer → List Reply × Buffer
  run [] b = ([], b)
  run (op ∷ ops) b = let (r, b') = step op b in let (rs, b'') = run ops b' in (r ∷ rs, b'')
