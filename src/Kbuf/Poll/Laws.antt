-- ===== src/Kbuf/Poll/Laws.antt =====
-- The blocking calls are those of the queue at the moment that the wait ends, every change that a
-- sleeper waits for wakes it, and the mask of `kbuf_poll` tells which calls return at once.
use Prim.Native.Nat.{bit_and, bit_or}
use kernel_code.Prelude.{
  ℕ, ◌+◌, ◌-◌, ◌<◌, min, ◌≡◌, ◌≢◌, ◌↔◌, refl, ap, Bool, true, false, List, [], ◌∷◌, ℤ, negsuc,
  arith, length, if◌then◌else◌,
}
use kernel_code.Kernel.Errno.{done, failed}
use kernel_code.Kernel.Memory.{UserAccess}
use kernel_code.Kbuf.Script.{Reply, reply}
use kernel_code.Kbuf.Pipe
use kernel_code.Kbuf.Buffer.{
  IsValid, contents, sz_512, sub_size, slice, shrink, shift_down, grow, store_tail, has_data,
  has_space,
}
use kernel_code.Kbuf.Buffer.Laws.{
  length-contents, slice-contents, shrink-shift_down-IsValid, contents-shrink-shift_down,
  store_tail-IsValid, contents-store_tail, grow-store_tail-IsValid, contents-grow-store_tail,
}
use kernel_code.Kbuf.Waiting.{Device, Waiter, wake_readers, wake_writers}
use kernel_code.Kbuf.Poll.{read, write, poll, pollin, pollout, pollrdnorm, pollwrnorm}

module _ (user : UserAccess) (waiter : Waiter) (d : Device) (v : IsValid d.buffer) where
  open waiter use {wait}

  -- A read of a positive number of bytes on a valid kbuf fails with the code of the wait, the
  -- bytes being those that the wait left, or is the read of the queue of what the kbuf holds
  -- when the wait ends; the kbuf stays valid.
  pub read_lem :
      (room cnt : ℕ)
      → cnt ≢ 0
      → let (ret, w) = wait has_data d in
        let (r, d') = read user waiter room cnt d in
        ◌≡◌ {A = Reply × List ℕ}
          (r, contents d'.buffer)
          (elim ret [
            | failed e ↦ (reply (negsuc e) [], contents w.buffer)
            | done ↦ Pipe.read user room cnt (contents w.buffer)
          ])
        × IsValid d'.buffer
  unfolding read Pipe.read wake_writers
  read_lem room cnt ne =
      let w = (wait has_data d).1 in
      let b = w.buffer in
      let vb = waiter.keeps has_data d v in
      let n = min cnt b.validlen in
      ground (
        arith,
        length-contents b vb,
        waiter.woken has_data d,
        slice-contents b vb n,
        shrink-shift_down-IsValid b vb n,
        contents-shrink-shift_down b vb n,
        user.out_all room (slice b.mem 0 n),
      )

  -- A write of a positive number of bytes on a valid kbuf fails with the code of the wait, the
  -- bytes being those that the wait left, or is the write to the queue of what the kbuf holds
  -- when the wait ends; the kbuf stays valid.
  pub write_lem :
      (src : List ℕ) (cnt : ℕ)
      → cnt ≢ 0
      → let (ret, w) = wait has_space d in
        let (r, d') = write user waiter src cnt d in
        ◌≡◌ {A = ℤ × List ℕ}
          (r, contents d'.buffer)
          (elim ret [
            | failed e ↦ (negsuc e, contents w.buffer)
            | done ↦ Pipe.write user src cnt (contents w.buffer)
          ])
        × IsValid d'.buffer
  unfolding write Pipe.write wake_readers
  write_lem src cnt ne =
      let w = (wait has_space d).1 in
      let b = w.buffer in
      let vb = waiter.keeps has_space d v in
      let n = min cnt (sub_size sz_512 b.validlen) in
      let space : sub_size sz_512 b.validlen ≡ sz_512 - b.validlen = omega arith in
      ground (
        arith,
        space,
        length-contents b vb,
        waiter.woken has_space d,
        user.in_length src n,
        user.in_all src n,
        contents-store_tail b vb (user.copy_in src n).1,
        contents-grow-store_tail b vb (user.copy_in src n).1,
        store_tail-IsValid b vb (user.copy_in src n).1,
        grow-store_tail-IsValid b vb (user.copy_in src n).1,
      )

  -- No wake-up of a writer is missed: a read of a positive number of bytes that leaves space in
  -- a valid kbuf, which was full when the wait ended, wakes the writers, once.
  pub read_wakes_writers :
      (room cnt : ℕ)
      → has_space (wait has_data d).1.buffer ≡ false
      → has_space (read user waiter room cnt d).1.buffer ≡ true
      → cnt ≢ 0
      → (read user waiter room cnt d).1.waitw ≡ (wait has_data d).1.waitw + 1
  unfolding read wake_writers shrink shift_down
  read_wakes_writers room cnt full free ne = ground arith

  -- No wake-up of a reader is missed: a write of a positive number of bytes that leaves data in
  -- a valid kbuf, which was empty when the wait ended, wakes the readers, once.
  pub write_wakes_readers :
      (src : List ℕ) (cnt : ℕ)
      → has_data (wait has_space d).1.buffer ≡ false
      → has_data (write user waiter src cnt d).1.buffer ≡ true
      → cnt ≢ 0
      → (write user waiter src cnt d).1.waitr ≡ (wait has_space d).1.waitr + 1
  unfolding write wake_readers grow store_tail
  write_wakes_readers src cnt none_there some_there ne = ground arith

mask : Bool → Bool → ℕ
mask p q =
    let m : ℕ = if p then bit_or 0 (bit_or pollin pollrdnorm) else 0 in
    if q then bit_or m (bit_or pollout pollwrnorm) else m

mask-pollin : (p q : Bool) → (bit_and (mask p q) pollin ≡ pollin) ↔ (p ≡ true)
unfolding mask
mask-pollin true true = (λ h. refl, λ h. refl)
mask-pollin true false = (λ h. refl, λ h. refl)
mask-pollin false true = (λ h. absurd (omega arith), λ h. cc)
mask-pollin false false = (λ h. absurd (omega arith), λ h. cc)

mask-pollout : (p q : Bool) → (bit_and (mask p q) pollout ≡ pollout) ↔ (q ≡ true)
unfolding mask
mask-pollout true true = (λ h. refl, λ h. refl)
mask-pollout false true = (λ h. refl, λ h. refl)
mask-pollout true false = (λ h. absurd (omega arith), λ h. cc)
mask-pollout false false = (λ h. absurd (omega arith), λ h. cc)

nil_of_length : (xs : List ℕ) → length xs ≡ 0 → xs ≡ []
nil_of_length [] h = refl
nil_of_length (x ∷ xs) h = absurd (omega arith)

module _ (d : Device) (v : IsValid d.buffer) where
  data_iff : (has_data d.buffer ≡ true) ↔ (contents d.buffer ≢ [])
  data_iff = (
    λ h e. absurd (ground (arith, ap length e, length-contents d.buffer v)),
    λ h. ground (arith, length-contents d.buffer v, nil_of_length (contents d.buffer)),
  )

  space_iff : (has_space d.buffer ≡ true) ↔ (length (contents d.buffer) < sz_512)
  space_iff = (
    λ h. ground (arith, length-contents d.buffer v),
    λ h. ground (arith, length-contents d.buffer v),
  )

  -- On a valid kbuf the mask says readable exactly if there is data, and writable exactly if
  -- there is space.
  pub poll_lem :
      ((bit_and (poll d) pollin ≡ pollin) ↔ (contents d.buffer ≢ []))
      × ((bit_and (poll d) pollout ≡ pollout) ↔ (length (contents d.buffer) < sz_512))
  unfolding poll mask
  poll_lem = (
    (λ h. data_iff.0 ((mask-pollin p q).0 h), λ h. (mask-pollin p q).1 (data_iff.1 h)),
    (λ h. space_iff.0 ((mask-pollout p q).0 h), λ h. (mask-pollout p q).1 (space_iff.1 h)),
  )
    where
      p : Bool
      p = has_data d.buffer

      q : Bool
      q = has_space d.buffer

  -- If the mask of a valid kbuf says readable, a read of a positive number of bytes does not
  -- sleep: it is the read of the queue of what the kbuf holds now.
  pub poll-read :
      (user : UserAccess) (waiter : Waiter) (room cnt : ℕ)
      → bit_and (poll d) pollin ≡ pollin
      → cnt ≢ 0
      → let (r, d') = read user waiter room cnt d in
        (r, contents d'.buffer) ≡ Pipe.read user room cnt (contents d.buffer)
  unfolding mask poll
  poll-read user waiter room cnt readable ne =
      let ready = (mask-pollin (has_data d.buffer) (has_space d.buffer)).0 readable in
      ground (arith, waiter.at_once has_data d ready, read_lem user waiter d v room cnt ne)

  -- If the mask of a valid kbuf says writable, a write of a positive number of bytes does not
  -- sleep: it is the write to the queue of what the kbuf holds now.
  pub poll-write :
      (user : UserAccess) (waiter : Waiter) (src : List ℕ) (cnt : ℕ)
      → bit_and (poll d) pollout ≡ pollout
      → cnt ≢ 0
      → let (r, d') = write user waiter src cnt d in
        (r, contents d'.buffer) ≡ Pipe.write user src cnt (contents d.buffer)
  unfolding mask poll
  poll-write user waiter src cnt writable ne =
      let ready = (mask-pollout (has_data d.buffer) (has_space d.buffer)).0 writable in
      ground (arith, waiter.at_once has_space d ready, write_lem user waiter d v src cnt ne)
