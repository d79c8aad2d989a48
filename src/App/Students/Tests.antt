-- ===== src/App/Students/Tests.antt =====
-- Two students go to the queue and come back.
use kernel_code.Prelude.{◌-◌, ◌≡◌, refl, some, true, [], ◌∷◌, length, arith}
use kernel_code.Kernel.Errno.{done}
use kernel_code.Kernel.Memory.Simple.{mapped}
use kernel_code.Dlist.{empty}
use kernel_code.App.Students.{Person, student, stu_bytes, write_all, read_all}
use kernel_code.App.Students.Laws.{length-stu_bytes, students_come_back}

abbrev ann : Person
ann = record { name = 97 ∷ 110 ∷ 110 ∷ []; old = 300 }

abbrev bob : Person
bob = record { name = 98 ∷ 111 ∷ 98 ∷ []; old = 27 }

all_copied : (p : Person) → 36 - length (stu_bytes p) ≡ 0
all_copied p = omega (arith, length-stu_bytes p)

all_shown : (p : Person) → length (stu_bytes p) - 36 ≡ 0
all_shown p = omega (arith, length-stu_bytes p)

students_come_back_example :
    let (oks, s) = write_all mapped done (ann ∷ bob ∷ []) empty in
    (oks ≡ true ∷ true ∷ []) × (read_all mapped 2 s ≡ some (student ann ∷ student bob ∷ []))
students_come_back_example =
    students_come_back mapped (ann ∷ bob ∷ []) (omega arith)
      (
        record { short = omega arith; plain = refl; small = omega arith },
        (record { short = omega arith; plain = refl; small = omega arith }, tt),
      )
      all_copied all_shown
