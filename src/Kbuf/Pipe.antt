-- ===== src/Kbuf/Pipe.antt =====
-- What a kbuf promises: a queue of at most 512 bytes. A request moves as many bytes as it can, and
-- fails without effect on the queue when it can move none or the copy fails.
use kernel_code.Prelude.{
  ℕ, ◌-◌, min, List, [], ◌∷◌, ◌++◌, ℤ, pos, length, take, drop, ◌==◌, if◌then◌else◌,
}
use kernel_code.Kernel.Errno.{eio, eagain, enospc}
use kernel_code.Kernel.Memory.{UserAccess}
use kernel_code.Kbuf.Script.{Reply, reply, Op, get, put}

abbrev pub capacity : ℕ
capacity = 512

module _ (user : UserAccess) where
  unfoldable pub read : (room cnt : ℕ) → List ℕ → Reply × List ℕ
  read room cnt q =
      let n = min cnt (length q) in
      if cnt == 0
      then (reply (pos 0) [], q)
      else if length q == 0
      then (reply eagain [], q)
      else if (user.copy_out room (take n q)).0 == 0
      then (reply (pos n) (take n q), drop n q)
      else (reply eio (user.copy_out room (take n q)).1, q)

  unfoldable pub write : (src : List ℕ) (cnt : ℕ) → List ℕ → ℤ × List ℕ
  write src cnt q =
      let n = min cnt (capacity - length q) in
      if cnt == 0
      then (pos 0, q)
      else if length q == capacity
      then (enospc, q)
      else if (user.copy_in src n).0 == 0
      then (pos n, q ++ take n src)
      else (eio, q)

  unfoldable pub step : Op → List ℕ → Reply × List ℕ
  step (get room cnt) q = read room cnt q
  step (put src cnt) q = let (r, q') = write src cnt q in (reply r [], q')

  unfoldable pub run : List Op → List ℕ → List Reply × List ℕ
  run [] q = ([], q)
  run (op ∷ ops) q = let (r, q') = step op q in let (rs, q'') = run ops q' in (r ∷ rs, q'')
