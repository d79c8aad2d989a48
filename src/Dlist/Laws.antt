-- ===== src/Dlist/Laws.antt =====
-- The driver against the queue of its records, how many it can hold, and the nodes that it loses.
use kernel_code.Prelude.{
  ℕ, ◌+◌, ◌-◌, ◌≤◌, ◌≡◌, refl, ap, Option, none, some, List, [], ◌∷◌, ℤ, pos, arith, length,
  length-append, not, ◌&&◌, ◌==◌, leb, if◌then◌else◌,
}
use native.Mathlib.Nat.{add_assoc}
use kernel_code.Kernel.Errno.{Outcome, done, is_done, eagain}
use kernel_code.Kernel.World.{resource, misc, World, acquire, release-acquire}
use kernel_code.Kernel.Memory.{UserAccess}
use kernel_code.Kbuf.Script.{Reply}
use kernel_code.Dlist.{
  Stu, StuHead, Op, get, put, sizeof_stu, limit_stu, read, write, step, run, free_all, exit,
}
use kernel_code.Dlist.Queue

-- `num` counts the list, and with `lost` further nodes it makes up what is allocated.
pub record IsValid (lost : ℕ) (s : StuHead) : Type 0 where
  pub counted : s.num ≡ length s.head
  pub bounded : s.num ≤ limit_stu + 1
  pub owned : s.allocated ≡ length s.head + lost

module _ (user : UserAccess) where
  -- A write whose copy fails after the node was allocated.
  abbrev pub loses : Op → List Stu → ℕ
  loses (get room cnt) q = 0
  loses (put memory src cnt) q =
      if (cnt == sizeof_stu && leb (length q) limit_stu)
        && (is_done memory && not ((user.copy_in src sizeof_stu).0 == 0))
      then 1
      else 0

  unfoldable pub all_lost : List Op → List Stu → ℕ
  all_lost [] q = 0
  all_lost (op ∷ ops) q = loses op q + all_lost ops (Queue.step user op q).1

  -- What a step of the driver has to be, against the step of the queue.
  pub data Agrees (lost : ℕ) {R : Type 0} (spec : R × List Stu)
      : Option (R × StuHead) → Type 0 where
    agrees :
        {r : R} {s : StuHead}
        → r ≡ spec.0
        → s.head ≡ spec.1
        → IsValid lost s
        → Agrees lost spec (some (r, s))

  module _ (lost room cnt : ℕ) (s : StuHead) (v : IsValid lost s) where
    -- The head of the list after a read.
    abbrev after_read : Stu → List Stu → StuHead
    after_read stu rest =
        if (cnt == sizeof_stu) && ((user.copy_out room stu).0 == 0)
        then record { head = rest; num = s.num - 1; allocated = s.allocated - 1 }
        else s

    read-eq :
        (q : List Stu)
        → s.head ≡ q
        → read user room cnt s
          ≡ some
              ((Queue.read user room cnt q).0, elim q [ [] ↦ s | stu ∷ rest ↦ after_read stu rest ])
    unfolding read Queue.read
    read-eq [] e = ground (arith, v.counted, ap length e)
    read-eq (stu ∷ rest) e = ground (arith, v.counted, ap length e, user.out_all room stu)

    read_refines :
        (q : List Stu)
        → s.head ≡ q
        → Agrees lost (Queue.read user room cnt q) (read user room cnt s)
    unfolding Queue.read
    read_refines [] e = rw (read-eq [] e) (agrees refl e v)
    read_refines (stu ∷ rest) e =
        rw (read-eq (stu ∷ rest) e)
          (agrees refl (ground (arith, e)) (ground (arith, e, ap length e)))

  write_refines :
      (lost : ℕ) (memory : Outcome) (src : List ℕ) (cnt : ℕ) (s : StuHead)
      → IsValid lost s
      → Agrees
          (lost + loses (put memory src cnt) s.head)
          (Queue.step user (put memory src cnt) s.head)
          (step user (put memory src cnt) s)
  unfolding step write Queue.step Queue.write
  write_refines lost memory src cnt s v =
      let stu = (user.copy_in src sizeof_stu).1 in
      agrees (ground arith) (ground arith) (ground (arith, length-append s.head (stu ∷ [])))

  step_refines :
      {lost : ℕ} (op : Op) (s : StuHead)
      → IsValid lost s
      → Agrees (lost + loses op s.head) (Queue.step user op s.head) (step user op s)
  unfolding step Queue.step
  step_refines {lost} (get room cnt) s v =
      let e : lost + 0 ≡ lost = omega arith in rw e (read_refines lost room cnt s v s.head refl)
  step_refines {lost} (put memory src cnt) s v = write_refines lost memory src cnt s v

  run-some :
      (op : Op) (ops : List Op) (s s' : StuHead) (r : Reply)
      → step user op s ≡ some (r, s')
      → run user (op ∷ ops) s
        ≡ (elim (run user ops s') [ none ↦ none | some (rs, s'') ↦ some (r ∷ rs, s'') ])
  unfolding run
  run-some op ops s s' r e = rw (e, run)

  Agrees-cons :
      {lost : ℕ} {spec : List Reply × List Stu} {o : Option (List Reply × StuHead)} (r : Reply)
      → Agrees lost spec o
      → Agrees lost (r ∷ spec.0, spec.1) (elim o [ none ↦ none | some (rs, s) ↦ some (r ∷ rs, s) ])
  Agrees-cons r (agrees er eh v) = agrees (ap (λ rs. r ∷ rs) er) eh v

  run-step :
      (lost : ℕ) (op : Op) (ops : List Op) (s : StuHead) {o : Option (Reply × StuHead)}
      → step user op s ≡ o
      → Agrees (lost + loses op s.head) (Queue.step user op s.head) o
      → ((s' : StuHead)
          → IsValid (lost + loses op s.head) s'
          → Agrees
              (lost + loses op s.head + all_lost ops s'.head)
              (Queue.run user ops s'.head)
              (run user ops s'))
      → Agrees
          (lost + all_lost (op ∷ ops) s.head)
          (Queue.run user (op ∷ ops) s.head)
          (run user (op ∷ ops) s)
  unfolding Queue.run all_lost
  run-step lost op ops s e (agrees {r} {s = s'} er eh v) ih =
      rw (run-some op ops s s' r e, ← er, ← eh, ← add_assoc) (Agrees-cons r (ih s' v))

  -- Whatever calls are made on a valid list, the driver never follows the pointer of an empty list; the
  -- calls return what the queue returns, the list ends as the queue, and is valid with the nodes that
  -- were lost on the way.
  pub run_refines_queue :
      (lost : ℕ) (ops : List Op) (s : StuHead)
      → IsValid lost s
      → Agrees (lost + all_lost ops s.head) (Queue.run user ops s.head) (run user ops s)
  unfolding run Queue.run all_lost
  run_refines_queue lost [] s v = let e : lost + 0 ≡ lost = omega arith in rw e (agrees refl refl v)
  run_refines_queue lost (op ∷ ops) s v =
      run-step lost op ops s refl (step_refines op s v)
        (λ s' v'. run_refines_queue (lost + loses op s.head) ops s' v')

free_all-sub : (xs : List Stu) (n : ℕ) → free_all xs n ≡ n - length xs
unfolding free_all
free_all-sub [] n = omega arith
free_all-sub (x ∷ xs) n = omega (arith, free_all-sub xs (n - 1))

-- `kbuf_exit` frees every node of the list and gives back the misc device; the nodes lost by failed
-- copies stay allocated.
pub exit_leaks :
    (lost : ℕ) (s : StuHead) (w : World)
    → IsValid lost s
    → exit s (acquire (resource misc 0) w) ≡ (lost, w)
unfolding exit
exit_leaks lost s w v =
    let freed : free_all s.head s.allocated ≡ lost =
      omega (arith, free_all-sub s.head s.allocated, v.owned) in
    rw (freed, release-acquire (resource misc 0) w) refl

-- If memory and the copy are granted, a write of a whole record to a valid list is taken in as
-- long as the list has at most `LIMIT_STU` records, so that it grows to one more; then it
-- returns -EAGAIN.
pub write_limit :
    (user : UserAccess) (lost : ℕ) (src : List ℕ) (s : StuHead)
    → IsValid lost s
    → (user.copy_in src sizeof_stu).0 ≡ 0
    → let (r, s') = write user done src sizeof_stu s in
      ◌≡◌ {A = ℤ × ℕ}
        (r, length s'.head)
        (if leb (length s.head) limit_stu
          then (pos sizeof_stu, length s.head + 1)
          else (eagain, length s.head))
unfolding write
write_limit user lost src s v ok =
    ground (arith, v.counted, length-append s.head ((user.copy_in src sizeof_stu).1 ∷ []))

-- If nothing of the record could be copied, the write returns 36, as if all had been written, and
-- the list is as before.
pub failed_write_looks_done :
    (user : UserAccess) (src : List ℕ) (s : StuHead)
    → s.num ≤ limit_stu
    → (user.copy_in src sizeof_stu).0 ≡ sizeof_stu
    → let (r, s') = write user done src sizeof_stu s in
      (r ≡ pos sizeof_stu) × (s'.head ≡ s.head) × (s'.allocated ≡ s.allocated + 1)
unfolding write
failed_write_looks_done user src s room none_copied = ground arith
