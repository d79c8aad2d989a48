-- ===== src/App/Students.antt =====
-- dlist/app/app.c: a program that hands students to the queue of dlist/dlist.c and shows those that it gets
-- back, together with the driver.
pub mod Laws
mod Tests
use kernel_code.Prelude.{
  ℕ, zero, suc, ◌+◌, ◌-◌, ◌*◌, ◌/◌, ◌%◌, ◌^◌, Option, none, some, Bool, true, false, List, [], ◌∷◌,
  ◌++◌, ℤ, pos, negsuc, length, take, drop, replicate, get_or, ◌==◌, if◌then◌else◌,
}
use kernel_code.Kernel.Errno.{Outcome}
use kernel_code.Kernel.Memory.{UserAccess}
use kernel_code.Kbuf.Script.{Reply}
use kernel_code.Dlist.{Stu, StuHead, sizeof_stu, read, write}
use kernel_code.App.Kbuf.{text_of}

-- A name without a 0 and an age, as they are on the command line and in the line that is printed.
pub record Person : Type 0 where
  pub name : List ℕ
  pub old : ℕ

-- `strncpy(stu.name, name, SZ_32 - 1)` into 32 zeros.
abbrev pub name_field : List ℕ → List ℕ
name_field name = let some_of = take 31 name in some_of ++ replicate (32 - length some_of) 0

-- The four bytes of a `size_t`, the lowest first as on the board, and their number.
abbrev pub word_bytes : ℕ → List ℕ
word_bytes n = n % 256 ∷ n / 2 ^ 8 % 256 ∷ n / 2 ^ 16 % 256 ∷ n / 2 ^ 24 % 256 ∷ []

abbrev pub word_of : List ℕ → ℕ
word_of bs = get_or bs 0 0 + get_or bs 1 0 * 2 ^ 8 + get_or bs 2 0 * 2 ^ 16 + get_or bs 3 0 * 2 ^ 24

-- `struct stu` in memory.
unfoldable pub stu_bytes : Person → Stu
stu_bytes p = name_field p.name ++ word_bytes p.old

-- What `printf` makes of it: `%s` ends at the first 0.
unfoldable pub person_of : Stu → Person
person_of stu = record { name = text_of stu; old = word_of (drop 32 stu) }

-- What a run of the program prints: an error, nothing, or a student.
pub data Line : Type 0 where
  failure nothing : Line
  student : Person → Line

abbrev pub after_read : Reply → Line
after_read r = elim r.ret [
  | pos n ↦ if n == sizeof_stu then student (person_of r.out) else nothing
  | negsuc e ↦ failure
]

-- Whether the write took the whole record.
abbrev pub took_all : ℤ → Bool
took_all (pos n) = n == sizeof_stu
took_all (negsuc e) = false

module _ (user : UserAccess) where
  -- `main` with `wr`
  unfoldable pub main_wr : Outcome → Person → StuHead → Bool × StuHead
  main_wr memory p s =
      let (ret, s') = write user memory (stu_bytes p) sizeof_stu s in (took_all ret, s')

  -- `main` with `rd`
  unfoldable pub main_rd : StuHead → Option (Line × StuHead)
  main_rd s = elim (read user sizeof_stu sizeof_stu s) [
    | none ↦ none
    | some (r, s') ↦ some (after_read r, s')
  ]

  -- One run after another.
  unfoldable pub write_all : Outcome → List Person → StuHead → List Bool × StuHead
  write_all memory [] s = ([], s)
  write_all memory (p ∷ ps) s =
      let (ok, s') = main_wr memory p s in
      let (oks, s'') = write_all memory ps s' in (ok ∷ oks, s'')

  unfoldable pub read_all : (runs : ℕ) → StuHead → Option (List Line)
  read_all zero s = some []
  read_all (suc runs) s = elim (main_rd s) [
    | none ↦ none
    | some (line, s') ↦ elim (read_all runs s') [ none ↦ none | some lines ↦ some (line ∷ lines) ]
  ]
