-- ===== src/Dlist/Queue.antt =====
-- What the driver promises: a queue of student records, which takes one in as long as it holds no more
-- than `LIMIT_STU`.
use kernel_code.Prelude.{ℕ, List, [], ◌∷◌, ◌++◌, ℤ, pos, length, not, ◌==◌, ltb, if◌then◌else◌}
use kernel_code.Kernel.Errno.{Outcome, done, failed, einval, eagain, enomem}
use kernel_code.Kernel.Memory.{UserAccess}
use kernel_code.Kbuf.Script.{Reply, reply}
use kernel_code.Dlist.{Stu, Op, get, put, sizeof_stu, limit_stu}

module _ (user : UserAccess) where
  unfoldable pub read : (room cnt : ℕ) → List Stu → Reply × List Stu
  read room cnt [] = (reply (if cnt == sizeof_stu then pos 0 else einval) [], [])
  read room cnt (stu ∷ q) =
      if not (cnt == sizeof_stu)
      then (reply einval [], stu ∷ q)
      else if (user.copy_out room stu).0 == 0
      then (reply (pos sizeof_stu) stu, q)
      else (reply einval (user.copy_out room stu).1, stu ∷ q)

  unfoldable pub write : (memory : Outcome) (src : List ℕ) (cnt : ℕ) → List Stu → ℤ × List Stu
  write memory src cnt q =
      if not (cnt == sizeof_stu)
      then (einval, q)
      else if ltb limit_stu (length q)
      then (eagain, q)
      else (elim memory [
        | failed e ↦ (enomem, q)
        | done ↦
            if (user.copy_in src sizeof_stu).0 == 0
            then (pos sizeof_stu, q ++ (user.copy_in src sizeof_stu).1 ∷ [])
            else (pos (user.copy_in src sizeof_stu).0, q)
      ])

  unfoldable pub step : Op → List Stu → Reply × List Stu
  step (get room cnt) q = read room cnt q
  step (put memory src cnt) q = let (r, q') = write memory src cnt q in (reply r [], q')

  unfoldable pub run : List Op → List Stu → List Reply × List Stu
  run [] q = ([], q)
  run (op ∷ ops) q = let (r, q') = step op q in let (rs, q'') = run ops q' in (r ∷ rs, q'')
