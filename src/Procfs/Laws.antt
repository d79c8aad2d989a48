-- ===== src/Procfs/Laws.antt =====
-- The limit on what the entry keeps, what is read back, and what is lost.
use kernel_code.Prelude.{
  ℕ, ◌+◌, ◌-◌, ◌<◌, ◌≤◌, min, ◌≡◌, ◌≢◌, refl, ap, sym, ◌∙◌, List, [], ◌∷◌, ◌++◌, pos, ◌&&◌, arith,
  length, length-append, append_assoc, append-nil, take, not, ◌==◌, leb, if◌then◌else◌,
}
use kernel_code.Kernel.Errno.{done, is_done}
use kernel_code.Kernel.World.{World}
use kernel_code.Kernel.Memory.{UserAccess}
use kernel_code.Procfs.{
  user_limits, ProcHead, Call, usr_proc_write, run, text, proc_text, free_all, exit,
}

-- The bytes of all nodes, one after another.
unfoldable pub bytes : List (List ℕ) → List ℕ
bytes [] = []
bytes (bs ∷ rest) = bs ++ bytes rest

pub bytes-append : (xs ys : List (List ℕ)) → bytes (xs ++ ys) ≡ bytes xs ++ bytes ys
unfolding bytes
bytes-append [] ys = refl
bytes-append (bs ∷ rest) ys =
    ap (λ t. bs ++ t) (bytes-append rest ys) ∙ sym (append_assoc bs (bytes rest) (bytes ys))

bytes-snoc : (xs : List (List ℕ)) (bs : List ℕ) → bytes (xs ++ bs ∷ []) ≡ bytes xs ++ bs
unfolding bytes
bytes-snoc xs bs = bytes-append xs (bs ∷ []) ∙ ap (λ t. bytes xs ++ t) (append-nil bs)

-- `total` counts the bytes of the list and is at most one megabyte; every node of the list is allocated.
pub record IsValid (s : ProcHead) : Type 0 where
  pub counted : s.total ≡ length (bytes s.head)
  pub limited : s.total ≤ user_limits
  pub owned : length s.head ≤ s.allocated

module _ (user : UserAccess) where
  write-IsValid : (c : Call) (s : ProcHead) → IsValid s → IsValid (usr_proc_write user c s).1
  unfolding usr_proc_write
  write-IsValid c s v =
      let n = min c.count (user_limits - s.total) in
      let bs = (user.copy_in c.buffer n).1 in
      ground (
        arith,
        v.counted,
        v.limited,
        v.owned,
        ap length (bytes-snoc s.head bs),
        length-append (bytes s.head) bs,
        length-append s.head (bs ∷ []),
        user.in_length c.buffer n,
      )

  -- What a write that returned `r` took in: nothing where the copy failed, which `taken` tells.
  abbrev pub appended : Call → ProcHead → List ℕ
  appended c s =
      let n = min c.count (user_limits - s.total) in
      if (not (c.count == 0) && not (leb user_limits s.total))
        && (is_done c.node && is_done c.kbuf)
        && ((user.copy_in c.buffer n).0 == 0)
      then take n c.buffer
      else []

  write_appends :
      (c : Call) (s : ProcHead)
      → bytes (usr_proc_write user c s).1.head ≡ bytes s.head ++ appended c s
  unfolding usr_proc_write
  write_appends c s =
      let n = min c.count (user_limits - s.total) in
      let bs = (user.copy_in c.buffer n).1 in
      ground (arith, bytes-snoc s.head bs, append-nil (bytes s.head), user.in_all c.buffer n)

  unfoldable pub all_appended : List Call → ProcHead → List ℕ
  all_appended [] s = []
  all_appended (c ∷ cs) s = appended c s ++ all_appended cs (usr_proc_write user c s).1

  -- Whatever is written to a valid entry, it keeps at most one megabyte, `total` is the number
  -- of its bytes, and these are the bytes of before followed by those of each write that was
  -- granted its memory and its copy, cut where the megabyte is full.
  pub run_keeps :
      (cs : List Call) (s : ProcHead)
      → IsValid s
      → let (rs, s') = run user cs s in
        (bytes s'.head ≡ bytes s.head ++ all_appended cs s) × IsValid s'
  unfolding run all_appended
  run_keeps [] s v = (sym (append-nil (bytes s.head)), v)
  run_keeps (c ∷ cs) s v =
      let s' = (usr_proc_write user c s).1 in
      let (kept, valid) = run_keeps cs s' (write-IsValid c s v) in
      (
        kept
            ∙ ap (λ t. t ++ all_appended cs s') (write_appends c s)
            ∙ append_assoc (bytes s.head) (appended c s) (all_appended cs s'),
        valid,
      )

free_all-sub : (xs : List (List ℕ)) (n : ℕ) → free_all xs n ≡ n - length xs
unfolding free_all
free_all-sub [] n = omega arith
free_all-sub (x ∷ xs) n = omega (arith, free_all-sub xs (n - 1))

-- A write of which no byte can be copied returns the number of bytes asked for, as if it had been done,
-- keeps nothing, and its node is still allocated when the module is gone.
pub failed_copy_leaks :
    (user : UserAccess) (c : Call) (s : ProcHead) (w : World)
    → IsValid s
    → s.total < user_limits
    → c.count ≢ 0
    → c.count ≤ user_limits - s.total
    → c.node ≡ done
    → c.kbuf ≡ done
    → (user.copy_in c.buffer c.count).0 ≡ c.count
    → let (r, s') = usr_proc_write user c s in
      (r ≡ pos c.count) × (s'.head ≡ s.head) × ((exit s' w).0 ≡ (exit s w).0 + 1)
unfolding usr_proc_write exit
failed_copy_leaks user c s w v room asks fits n k none_copied =
    let m : min c.count (user_limits - s.total) ≡ c.count = omega arith in
    let rest = free_all-sub s.head s.allocated in
    let rest' = free_all-sub s.head (s.allocated + 1) in ground (arith, m, v.owned, rest, rest')

-- No byte is 0.
pub data NoZero : List ℕ → Type 0 where
  no_byte : NoZero []
  byte : {b : ℕ} {bs : List ℕ} → b ≢ 0 → NoZero bs → NoZero (b ∷ bs)

text-NoZero : {bs : List ℕ} → NoZero bs → text bs ≡ bs
unfolding text
text-NoZero no_byte = refl
text-NoZero (byte {b} {bs} ne rest) = ground (arith, text-NoZero rest)

pub data AllText : List (List ℕ) → Type 0 where
  no_node : AllText []
  node : {bs : List ℕ} {rest : List (List ℕ)} → NoZero bs → AllText rest → AllText (bs ∷ rest)

proc_text-bytes : {xs : List (List ℕ)} → AllText xs → proc_text xs ≡ bytes xs
unfolding proc_text bytes
proc_text-bytes no_node = refl
proc_text-bytes (node a more) = rw (text-NoZero a, proc_text-bytes more) refl

-- A read of a valid entry writes to its one page all bytes that are kept, if none is 0: as many
-- as `total` says.
pub read_fills_page :
    (s : ProcHead)
    → IsValid s
    → AllText s.head
    → (proc_text s.head ≡ bytes s.head) × (length (proc_text s.head) ≡ s.total)
read_fills_page s v t = (proc_text-bytes t, ap length (proc_text-bytes t) ∙ sym v.counted)
