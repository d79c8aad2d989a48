-- ===== src/App/Kbuf.antt =====
-- kbufchardrv/app/write.c, kbufchardrv/app/read.c and app/cat.c: programs that fill a kbuf from a file, show
-- what is in a kbuf, and show a file to its end, the file being a kbuf of kbufchardrv/kbuf.c.
pub mod Laws
mod Tests
use kernel_code.Prelude.{
  ℕ, zero, suc, ◌-◌, Option, none, some, Bool, true, false, List, [], ◌∷◌, ◌++◌, ℤ, pos, negsuc,
  length, take, ◌==◌, if◌then◌else◌,
}
use kernel_code.Kernel.Memory.{UserAccess}
use kernel_code.Kbuf.Script.{Reply}
use kernel_code.Kbuf.Buffer.{Buffer}
use kernel_code.Kbuf.Nonblocking.{read, write}

-- The bytes before the first 0: what `%s` prints.
unfoldable pub text_of : List ℕ → List ℕ
text_of [] = []
text_of (b ∷ bs) = let rest = text_of bs in if b == 0 then [] else b ∷ rest

-- The number in the line that `write.c` prints, or `none` where it prints an error.
abbrev pub after_write : ℤ → Option ℕ
after_write (pos n) = some n
after_write (negsuc e) = none

-- The number and the text that `read.c` prints, or `none` where it prints an error.
abbrev pub after_read : Reply → Option (ℕ × List ℕ)
after_read r = elim r.ret [ pos n ↦ some (n, text_of (take n r.out)) | negsuc e ↦ none ]

-- What `cat.c` has printed, and whether its `assert(ret == 0)` holds.
pub record Shown : Type 0 where
  pub bytes : List ℕ
  pub ended : Bool

abbrev pub print_first : List ℕ → Option Shown → Option Shown
print_first bs none = none
print_first bs (some s) = some (record s { bytes = bs ++ s.bytes })

-- `rest` is the further rounds of the loop.
abbrev pub after_cat_read : (rest : Option Shown × Buffer) → Reply × Buffer → Option Shown × Buffer
after_cat_read rest (r, b) = elim r.ret [
  | pos zero ↦ (some (record { bytes = []; ended = true }), b)
  | pos (suc n) ↦ (print_first (take (suc n) r.out) rest.0, rest.1)
  | negsuc e ↦ (some (record { bytes = []; ended = false }), b)
]

module _ (user : UserAccess) where
  -- `main` of `write.c`; a file of which nothing can be read fails the `assert(retr > 0)`.
  unfoldable pub write_main : (file : List ℕ) → Buffer → Option ℕ × Buffer
  write_main file b =
      let buf = take 512 file in
      if length buf == 0
      then (none, b)
      else let (retw, b') = write user buf (length buf) b in (after_write retw, b')

  -- `main` of `read.c`, whose buffer has room for the 0 that it adds.
  unfoldable pub read_main : Buffer → Option (ℕ × List ℕ) × Buffer
  read_main b = let (r, b') = read user 512 511 b in (after_read r, b')

  -- The loop of `cat.c` and its `assert`, for at most `fuel` reads; `none` where more are needed.
  unfoldable pub cat_main : (fuel : ℕ) → Buffer → Option Shown × Buffer
  cat_main zero b = (none, b)
  cat_main (suc fuel) b =
      let (r, b') = read user 64 64 b in let rest = cat_main fuel b' in after_cat_read rest (r, b')
