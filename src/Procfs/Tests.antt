-- ===== src/Procfs/Tests.antt =====
-- The entry under /proc at concrete inputs.
use kernel_code.Prelude.{some, ℕ, ◌≡◌, refl, List, [], ◌∷◌, arith}
use kernel_code.Kernel.Errno.{done, failed}
use kernel_code.Kernel.World.{nothing_held}
use kernel_code.Procfs.Older
use kernel_code.Procfs.Older.{keeps_and_frees}
use kernel_code.Kernel.Memory.Simple.{mapped}
use kernel_code.Procfs.{text, empty, Call, usr_proc_write, run}
use kernel_code.Procfs.Laws.{bytes, IsValid, all_appended, run_keeps}

abbrev granted : List ℕ → ℕ → Call
granted bs n = record { node = done; kbuf = done; buffer = bs; count = n }

empty-IsValid : IsValid empty
unfolding bytes
empty-IsValid = record { counted = refl; limited = omega arith; owned = omega arith }

abbrev script : List Call
script = granted (1 ∷ 2 ∷ []) 2 ∷ granted [] 3 ∷ granted (3 ∷ []) 1 ∷ []

run_keeps_example :
    let (rs, s') = run mapped script empty in (bytes s'.head ≡ 1 ∷ 2 ∷ 3 ∷ []) × IsValid s'
unfolding bytes all_appended usr_proc_write
run_keeps_example = run_keeps mapped script empty empty-IsValid

-- A write without memory, and one of three bytes of which the second is 0.
abbrev older_script : List Call
older_script =
    record { node = failed 11; kbuf = done; buffer = 5 ∷ []; count = 1 }
    ∷ granted (7 ∷ 0 ∷ 8 ∷ []) 3
    ∷ []

keeps_and_frees_example :
    let s = Older.run mapped older_script Older.empty in
    (Older.demo_read s.head ≡ some (7 ∷ [])) × ((Older.exit s nothing_held).0 ≡ 0)
unfolding text
keeps_and_frees_example = keeps_and_frees mapped older_script nothing_held
