-- ===== src/Kbuf/Block/Laws.antt =====
-- The blocking calls against the queue of the bytes, and what a signal does to a read.
use kernel_code.Prelude.{ℕ, ◌-◌, min, ◌≡◌, ◌≢◌, ap, List, [], ℤ, pos, negsuc, arith, length}
use kernel_code.Kernel.Errno.{done, failed}
use kernel_code.Kernel.Memory.{UserAccess}
use kernel_code.Kbuf.Script.{reply}
use kernel_code.Kbuf.Pipe
use kernel_code.Kbuf.Buffer.{IsValid, contents, sz_512, sub_size, slice, has_data, has_space}
use kernel_code.Kbuf.Buffer.Laws.{
  length-contents, slice-contents, shrink-shift_down-IsValid, contents-shrink-shift_down,
  store_tail-IsValid, contents-store_tail, grow-store_tail-IsValid, contents-grow-store_tail,
}
use kernel_code.Kbuf.Waiting.{Device, Waiter, wake_readers, wake_writers}
use kernel_code.Kbuf.Block.{read, write}

module _ (user : UserAccess) (waiter : Waiter) (d : Device) (v : IsValid d.buffer) where
  open waiter use {wait}

  -- A read of a positive number of bytes on a valid kbuf whose wait was not interrupted is the
  -- read of the queue of what the kbuf then holds, and the kbuf stays valid.
  pub blocking_read_lem :
      (room cnt : ℕ)
      → cnt ≢ 0
      → (wait has_data d).0 ≡ done
      → let (r, d') = read user waiter room cnt d in
        ((r, contents d'.buffer) ≡ Pipe.read user room cnt (contents (wait has_data d).1.buffer))
        × IsValid d'.buffer
  unfolding read Pipe.read wake_writers
  blocking_read_lem room cnt ne awake =
      let b = (wait has_data d).1.buffer in
      let vb = waiter.keeps has_data d v in
      let n = min cnt b.validlen in
      ground (
        arith,
        length-contents b vb,
        waiter.woken has_data d,
        slice-contents b vb n,
        shrink-shift_down-IsValid b vb n,
        contents-shrink-shift_down b vb n,
        user.out_all room (slice b.mem 0 n),
      )

  -- A signal that ends the wait of a read of a positive number of bytes while a valid kbuf is
  -- empty is not reported: if copying no bytes succeeds, the read returns 0, which a process
  -- takes for the end of the file.
  pub interrupted_read_lem :
      (room cnt e : ℕ)
      → cnt ≢ 0
      → (wait has_data d).0 ≡ failed e
      → contents (wait has_data d).1.buffer ≡ []
      → (user.copy_out room []).0 ≡ 0
      → (read user waiter room cnt d).0 ≡ reply (pos 0) []
  unfolding read
  interrupted_read_lem room cnt e ne signal none_there copied =
      let b = (wait has_data d).1.buffer in
      let vb = waiter.keeps has_data d v in
      let empty : b.validlen ≡ 0 = omega (arith, length-contents b vb, ap length none_there) in
      let n0 : min cnt b.validlen ≡ 0 = omega arith in
      ground (arith, n0, empty, user.out_all room [])

  -- A write of a positive number of bytes on a valid kbuf fails with the code of the wait, the
  -- bytes being those that the wait left, or is the write to the queue of what the kbuf holds
  -- when the wait ends; the kbuf stays valid.
  pub blocking_write_lem :
      (src : List ℕ) (cnt : ℕ)
      → cnt ≢ 0
      → let (ret, w) = wait has_space d in
        let (r, d') = write user waiter src cnt d in
        ◌≡◌ {A = ℤ × List ℕ}
          (r, contents d'.buffer)
          (elim ret [
            | failed e ↦ (negsuc e, contents w.buffer)
            | done ↦ Pipe.write user src cnt (contents w.buffer)
          ])
        × IsValid d'.buffer
  unfolding write Pipe.write wake_readers
  blocking_write_lem src cnt ne =
      let b = (wait has_space d).1.buffer in
      let vb = waiter.keeps has_space d v in
      let n = min cnt (sub_size sz_512 b.validlen) in
      let space : sub_size sz_512 b.validlen ≡ sz_512 - b.validlen = omega arith in
      ground (
        arith,
        space,
        length-contents b vb,
        waiter.woken has_space d,
        user.in_length src n,
        user.in_all src n,
        contents-store_tail b vb (user.copy_in src n).1,
        contents-grow-store_tail b vb (user.copy_in src n).1,
        store_tail-IsValid b vb (user.copy_in src n).1,
        grow-store_tail-IsValid b vb (user.copy_in src n).1,
      )
