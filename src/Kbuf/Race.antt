-- ===== src/Kbuf/Race.antt =====
-- `kbuf_read` and `kbuf_write` of locks/kbufchardrv/kbuf.c, which take no lock and wait in `mdelay` before
-- they change `validlen`: two processes at one kbuf, step by step.
pub mod Lost
use kernel_code.Prelude.{ℕ, min, Bool, true, false, List, [], ◌∷◌, ℤ, pos, ◌==◌, if◌then◌else◌}
use kernel_code.Kernel.Errno.{eio, eagain, enospc}
use kernel_code.Kernel.World.{World}
use kernel_code.Kernel.Device.{Env}
use kernel_code.Kernel.Memory.{UserAccess}
use kernel_code.Kbuf.Setup
use kernel_code.Kbuf.Script.{Reply, reply}
use kernel_code.Kbuf.Buffer.{Buffer, sz_512, sub_size, slice, shift_down, shrink, store_tail, grow}

pub data Pc : Type 0 where
  called : (room cnt : ℕ) → Pc
  copied : (n : ℕ) (out : List ℕ) → Pc  -- before `memmove`
  shifted : (n : ℕ) (out : List ℕ) → Pc  -- in `mdelay`, before `validlen -= cnt`
  called_write : (src : List ℕ) (cnt : ℕ) → Pc
  stored : (n : ℕ) → Pc  -- write: in `mdelay`, before `validlen += cnt`
  returned : Reply → Pc

module _ (user : UserAccess) where
  unfoldable pub advance : Pc → Buffer → Buffer × Pc
  advance (called room cnt) b =
      let n = min cnt b.validlen in
      let (left, out) = user.copy_out room (slice b.mem 0 n) in
      if cnt == 0
      then (b, returned (reply (pos cnt) []))
      else if b.validlen == 0
      then (b, returned (reply eagain []))
      else if left == 0
      then (b, copied n out)
      else (b, returned (reply eio out))
  advance (copied n out) b = (shift_down n b, shifted n out)
  advance (shifted n out) b = (shrink n b, returned (reply (pos n) out))
  advance (called_write src cnt) b =
      let n = min cnt (sub_size sz_512 b.validlen) in
      let (left, bs) = user.copy_in src n in
      if cnt == 0
      then (b, returned (reply (pos cnt) []))
      else if b.validlen == sz_512
      then (b, returned (reply enospc []))
      else if left == 0
      then (store_tail bs b, stored n)
      else (store_tail bs b, returned (reply eio []))
  advance (stored n) b = (grow n b, returned (reply (pos n) []))
  advance (returned r) b = (b, returned r)

  pub record Pair : Type 0 where
    pub buffer : Buffer
    pub one : Pc
    pub two : Pc

  -- One step of the first process (`true`) or of the second.
  unfoldable pub turn : Bool → Pair → Pair
  turn true s = let (b, p) = advance s.one s.buffer in record s { buffer = b; one = p }
  turn false s = let (b, p) = advance s.two s.buffer in record s { buffer = b; two = p }

  unfoldable pub interleave : List Bool → Pair → Pair
  interleave [] s = s
  interleave (who ∷ rest) s = interleave rest (turn who s)

-- locks/kbufchardrv/kbuf.c: its initialisation and exit are those of kbufchardrv/kbuf.c.
unfoldable pub init : Env → (major assigned : ℕ) → World → ℤ × ℕ × World
init env major assigned w = Setup.init env major assigned w

unfoldable pub exit : World → World
exit w = Setup.exit w
