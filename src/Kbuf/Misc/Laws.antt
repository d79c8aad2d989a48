-- ===== src/Kbuf/Misc/Laws.antt =====
-- All or nothing for the misc device, and the commands of `ioctl` against the queue.
use kernel_code.Prelude.{
  ℕ, ◌≡◌, ◌≢◌, refl, Bool, ◌&&◌, none, some, List, [], ◌∷◌, pos, negsuc, is_negative, arith, length,
  take, drop, min, ◌==◌, if◌then◌else◌,
}
use kernel_code.Kernel.Errno.{done, failed, code, is_done, enomem, einval}
use kernel_code.Kernel.World.{resource, buffer, misc, World, acquire, release-acquire, acquire_comm}
use kernel_code.Kernel.Device.{Env}
use kernel_code.Kernel.Memory.{UserAccess}
use kernel_code.Kbuf.Buffer.{Buffer, IsValid, contents}
use kernel_code.Kbuf.Pipe
use kernel_code.Kbuf.Nonblocking.Refine.{read_refines, write_refines, read-IsValid, write-IsValid}
use kernel_code.Kbuf.Misc.{
  init, exit, usr_rd_buf, usr_wr_buf, Arg, Answer, answer, put_len, unlocked_ioctl,
}

abbrev pub granted : Env → Bool
granted env = is_done (env (resource buffer 0)) && is_done (env (resource misc 0))

-- `kbuf_init` of the misc device either returns 0, and `kbuf_exit` then brings back the world of
-- before, or it returns the error of what was refused and holds nothing more than before.
pub init_exit_lem :
    (env : Env) (w : World)
    → let (ret, w') = init env w in
      (ret ≡ (
        if granted env
        then pos 0
        else if is_done (env (resource buffer 0))
        then code (env (resource misc 0))
        else enomem))
      × ((if granted env then exit w' else w') ≡ w)
unfolding init exit
init_exit_lem env w = ground (
  arith,
  release-acquire (resource buffer 0) w,
  release-acquire (resource misc 0) w,
  acquire_comm (resource misc 0) (resource buffer 0) w,
  release-acquire (resource buffer 0) (acquire (resource misc 0) w),
)

module _ (user : UserAccess) (a : Arg) {b : Buffer} (v : IsValid b) where
  -- What the queue's read does through the command: its error is returned; or its count is stored, and
  -- 0 or the error of `put_user` is returned.
  abbrev pub read_answer : Answer × List ℕ
  read_answer =
      let (r, q) = Pipe.read user a.room a.size (contents b) in
      if is_negative r.ret
      then (answer r.ret r.out none, q)
      else (answer (code a.stored) r.out (if is_done a.stored then some r.ret else none), q)

  abbrev pub write_answer : Answer × List ℕ
  write_answer =
      let (r, q) = Pipe.write user a.src a.size (contents b) in
      if is_negative r
      then (answer r [] none, q)
      else (answer (code a.stored) [] (if is_done a.stored then some r else none), q)

  -- On a valid kbuf an `ioctl` whose `get_user` fails returns its error; the command to read and
  -- the command to write do what the queue does, any other command returns -EINVAL; the kbuf
  -- stays valid.
  pub unlocked_ioctl_lem :
      (cmd : ℕ)
      → let (r, b') = unlocked_ioctl user cmd a b in
        ◌≡◌ {A = Answer × List ℕ}
          (r, contents b')
          (elim a.got [
            | failed e ↦ (answer (negsuc e) [] none, contents b)
            | done ↦
                if cmd == usr_rd_buf
                then read_answer
                else if cmd == usr_wr_buf
                then write_answer
                else (answer einval [] none, contents b)
          ])
        × IsValid b'
  unfolding unlocked_ioctl put_len
  unlocked_ioctl_lem cmd = ground (
    arith,
    read_refines user v a.room a.size,
    write_refines user v a.src a.size,
    read-IsValid user v a.room a.size,
    write-IsValid user v a.src a.size,
  )

  -- The test of `copy_from_user` for a negative result never fires: however many bytes of the request
  -- could not be copied, the `ioctl` goes on as if all had been.
  pub failed_copy_unnoticed :
      (cmd n : ℕ)
      → unlocked_ioctl user cmd (record a { left = n }) b
        ≡ unlocked_ioctl user cmd (record a { left = 0 }) b
  unfolding unlocked_ioctl
  failed_copy_unnoticed cmd n = refl

  -- A command to read whose count cannot be stored returns the error of `put_user`, although the
  -- bytes have left the kbuf.
  pub ioctl_drops_bytes :
      (e : ℕ)
      → a.got ≡ done
      → a.stored ≡ failed e
      → a.size ≢ 0
      → contents b ≢ []
      → (user.copy_out a.room (take (min a.size (length (contents b))) (contents b))).0 ≡ 0
      → let (r, b') = unlocked_ioctl user usr_rd_buf a b in
        (r.ret ≡ negsuc e) × (contents b' ≡ drop (min a.size (length (contents b))) (contents b))
  unfolding Pipe.read put_len
  ioctl_drops_bytes e got lost asks some_there ok =
      ground (arith, unlocked_ioctl_lem usr_rd_buf, nonempty (contents b) some_there)
    where
      nonempty : (xs : List ℕ) → xs ≢ [] → length xs ≢ 0
      nonempty [] h = λ z. h refl
      nonempty (x ∷ xs) h = λ z. absurd (omega arith)
