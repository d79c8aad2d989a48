-- ===== src/Kbuf/Nonblocking/Refine.antt =====
-- On a valid kbuf the driver's calls are those of the queue of its contents.
use kernel_code.Prelude.{ℕ, ◌-◌, min, ◌≡◌, refl, List, [], ◌∷◌, arith}
use kernel_code.Kernel.Memory.{UserAccess}
use kernel_code.Kbuf.Script.{Op, get, put}
use kernel_code.Kbuf.Pipe
use kernel_code.Kbuf.Buffer.{Buffer, IsValid, contents, sz_512, sub_size, slice}
use kernel_code.Kbuf.Buffer.Laws.{
  length-contents, slice-contents, shrink-shift_down-IsValid, contents-shrink-shift_down,
  store_tail-IsValid, contents-store_tail, grow-store_tail-IsValid, contents-grow-store_tail,
}
use kernel_code.Kbuf.Nonblocking.{read, write, step, run}

module _ (user : UserAccess) {b : Buffer} (v : IsValid b) where
  -- A read keeps the buffer valid.
  pub read-IsValid : (room cnt : ℕ) → IsValid (read user room cnt b).1
  unfolding read
  read-IsValid room cnt = ground (arith, shrink-shift_down-IsValid b v (min cnt b.validlen))

  pub read_refines :
      (room cnt : ℕ)
      → let (r, b') = read user room cnt b in
        (r, contents b') ≡ Pipe.read user room cnt (contents b)
  unfolding read Pipe.read
  read_refines room cnt = rw (length-contents b v) (
      ground (
        arith,
        slice-contents b v (min cnt b.validlen),
        contents-shrink-shift_down b v (min cnt b.validlen),
        user.out_all room (slice b.mem 0 (min cnt b.validlen)),
      ))

  -- The subtraction that bounds a write does not wrap, and the bytes of the user fit.
  space : sub_size sz_512 b.validlen ≡ sz_512 - b.validlen
  space = omega arith

  pub write-IsValid : (src : List ℕ) (cnt : ℕ) → IsValid (write user src cnt b).1
  unfolding write
  write-IsValid src cnt =
      let n : ℕ = min cnt (sub_size sz_512 b.validlen) in
      ground (
        arith,
        space,
        user.in_length src n,
        store_tail-IsValid b v (user.copy_in src n).1,
        grow-store_tail-IsValid b v (user.copy_in src n).1,
      )

  pub write_refines :
      (src : List ℕ) (cnt : ℕ)
      → let (r, b') = write user src cnt b in
        (r, contents b') ≡ Pipe.write user src cnt (contents b)
  unfolding write Pipe.write
  write_refines src cnt =
      let n : ℕ = min cnt (sub_size sz_512 b.validlen) in
      rw (length-contents b v) (
        ground (
          arith,
          space,
          user.in_length src n,
          user.in_all src n,
          contents-store_tail b v (user.copy_in src n).1,
          contents-grow-store_tail b v (user.copy_in src n).1,
        ))

module _ (user : UserAccess) where
  pub step-IsValid : {b : Buffer} (op : Op) → IsValid b → IsValid (step user op b).1
  unfolding step
  step-IsValid (get room cnt) v = read-IsValid user v room cnt
  step-IsValid (put src cnt) v = write-IsValid user v src cnt

  pub step_refines :
      {b : Buffer} (op : Op)
      → IsValid b
      → let (r, b') = step user op b in (r, contents b') ≡ Pipe.step user op (contents b)
  unfolding step Pipe.step
  step_refines (get room cnt) v = read_refines user v room cnt
  step_refines {b} (put src cnt) v = rw (← write_refines user v src cnt)

  -- Whatever processes ask of a valid kbuf, in whatever order, each call returns what the queue of
  -- its contents returns, the kbuf stays valid, and it ends with what the queue ends with.
  pub run_refines :
      (ops : List Op) {b : Buffer}
      → IsValid b
      → let (rs, b') = run user ops b in
        ((rs, contents b') ≡ Pipe.run user ops (contents b)) × IsValid b'
  unfolding run Pipe.run
  run_refines [] v = (refl, v)
  run_refines (op ∷ ops) v = ground (arith, step_refines op v, run_refines ops (step-IsValid op v))
