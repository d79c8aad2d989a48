-- ===== src/Kbuf/Misc.antt =====
-- kbufmisc/kbuf.c and kbufioctl/kbuf.c: one kbuf behind a misc device. `kbuf_init` and `kbuf_exit`, and
-- the commands of `kbuf_unlocked_ioctl`; reads and writes are those of kbufchardrv/kbuf.c.
pub mod Laws
use kernel_code.Prelude.{
  ℕ, ◌+◌, ◌*◌, ◌^◌, Bool, Option, none, some, List, [], ℤ, pos, negsuc, is_negative, ◌==◌,
  if◌then◌else◌,
}
use kernel_code.Kernel.Errno.{Outcome, done, failed, code, enomem, einval}
use kernel_code.Kernel.World.{Resource, resource, buffer, misc, World, acquire, release}
use kernel_code.Kernel.Device.{Env}
use kernel_code.Kernel.Memory.{UserAccess}
use kernel_code.Kbuf.Script.{Reply, reply}
use kernel_code.Kbuf.Buffer.{Buffer}
use kernel_code.Kbuf.Nonblocking

unfoldable pub read : UserAccess → (room cnt : ℕ) → Buffer → Reply × Buffer
read user room cnt kbufs = Nonblocking.read user room cnt kbufs

unfoldable pub write : UserAccess → (src : List ℕ) (cnt : ℕ) → Buffer → ℤ × Buffer
write user src cnt kbufs = Nonblocking.write user src cnt kbufs

unfoldable pub init : Env → World → ℤ × World
init env w = elim (env (resource buffer 0)) [
  | failed e ↦ (enomem, w)
  | done ↦
      let w₁ = acquire (resource buffer 0) w in
      let ret = code (env (resource misc 0)) in
      elim (env (resource misc 0)) [
        | failed e ↦ (ret, release (resource buffer 0) w₁)
        | done ↦ (pos 0, acquire (resource misc 0) w₁)
      ]
]

unfoldable pub exit : World → World
exit w = release (resource misc 0) (release (resource buffer 0) w)

-- `_IOWR(type, nr, int)`
abbrev pub iowr : (type nr : ℕ) → ℕ
iowr type nr = 3 * 2 ^ 30 + 4 * 2 ^ 16 + type * 2 ^ 8 + nr

abbrev pub usr_rd_buf : ℕ
usr_rd_buf = iowr b'm' 0

abbrev pub usr_wr_buf : ℕ
usr_wr_buf = iowr b'm' 1

-- What the process passes to `ioctl`, and how the kernel's accesses to it end: the bytes of `bufdata`
-- that were not copied, its buffer for a read (`room`) and a write (`src`), `get_user` with the
-- length that it found, and `put_user`.
pub record Arg : Type 0 where
  pub left : ℕ
  pub room : ℕ
  pub src : List ℕ
  pub got : Outcome
  pub size : ℕ
  pub stored : Outcome

-- What `ioctl` returns, the bytes in the buffer of the process, and what was stored in `*len`.
pub record Answer : Type 0 where
  pub ret : ℤ
  pub out : List ℕ
  pub len : Option ℤ

abbrev pub answer : ℤ → List ℕ → Option ℤ → Answer
answer r bs l = record { ret = r; out = bs; len = l }

-- `put_user(ret, bufdata.len)` and what follows it.
unfoldable pub put_len : Outcome → (ret : ℤ) (out : List ℕ) → Answer
put_len stored ret out = elim stored [
  | failed e ↦ answer (negsuc e) out none
  | done ↦ answer (pos 0) out (some ret)
]

-- The number of bytes that `copy_from_user` did not copy is no negative number.
unfoldable pub unlocked_ioctl : UserAccess → (cmd : ℕ) → Arg → Buffer → Answer × Buffer
unfolding put_len read write
unlocked_ioctl user cmd a kbufs =
    let (r, after_read) = read user a.room a.size kbufs in
    let (w, after_write) = write user a.src a.size kbufs in
    if is_negative (pos a.left)
    then (answer (pos a.left) [] none, kbufs)
    else if is_negative (code a.got)
    then (answer (code a.got) [] none, kbufs)
    else if cmd == usr_rd_buf
    then if is_negative r.ret
      then (answer r.ret r.out none, after_read)
      else (put_len a.stored r.ret r.out, after_read)
    else if cmd == usr_wr_buf
    then if is_negative w
      then (answer w [] none, after_write)
      else (put_len a.stored w [], after_write)
    else (answer einval [] none, kbufs)
