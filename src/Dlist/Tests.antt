-- ===== src/Dlist/Tests.antt =====
-- A run of the driver, and the theorems at concrete lists.
use kernel_code.Prelude.{◌≡◌, refl, some, List, [], ◌∷◌, pos, arith, replicate}
use kernel_code.Kernel.Errno.{done, einval}
use kernel_code.Kernel.Memory.Simple.{mapped}
use kernel_code.Kbuf.Script.{reply}
use kernel_code.Dlist.{Stu, StuHead, empty, Op, get, put, write, run, step, read}
use kernel_code.Dlist.Queue
use kernel_code.Dlist.Laws.{Agrees, all_lost, run_refines_queue}

abbrev ann : Stu
ann = replicate 36 7

-- A record goes in; another cannot be copied, since the process has no memory there; one comes out.
abbrev script : List Op
script = put done ann 36 ∷ put done [] 36 ∷ get 36 36 ∷ get 36 36 ∷ get 36 35 ∷ []

run-script :
    run mapped script empty
    ≡ some (
      reply (pos 36) []
          ∷ reply (pos 36) []
          ∷ reply (pos 36) ann
          ∷ reply (pos 0) []
          ∷ reply einval []
          ∷ [],
      record { head = []; num = 0; allocated = 1 },
    )
unfolding run step read write
run-script = refl

run_refines_queue_example : Agrees mapped 1 (Queue.run mapped script []) (run mapped script empty)
unfolding all_lost Queue.step Queue.write
run_refines_queue_example = run_refines_queue mapped 0 script empty (omega arith)

abbrev fifty : StuHead
fifty = record { head = replicate 50 ann; num = 50; allocated = 50 }
