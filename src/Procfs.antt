-- ===== src/Procfs.antt =====
-- procfs/demo.c: an entry under /proc that keeps what is written to it, up to one megabyte.
pub mod Laws
pub mod Older
mod Tests
use kernel_code.Prelude.{
  ℕ, zero, ◌+◌, ◌-◌, min, List, [], ◌∷◌, ◌++◌, ℤ, pos, not, length, ◌==◌, leb, if◌then◌else◌,
}
use kernel_code.Kernel.Errno.{Outcome, done, failed, enomem}
use kernel_code.Kernel.World.{resource, proc_entry, World, acquire, release}
use kernel_code.Kernel.Device.{Env}
use kernel_code.Kernel.Memory.{UserAccess}

abbrev pub user_limits : ℕ
user_limits = 0x100000

-- `prochead`, with the bytes of each `struct userdata` up to `count`, and how many of these are allocated.
pub record ProcHead : Type 0 where
  pub head : List (List ℕ)
  pub total : ℕ
  pub allocated : ℕ

abbrev pub empty : ProcHead
empty = record { head = []; total = 0; allocated = 0 }

-- A call of `usr_proc_write`: what `kzalloc` answers for the node and for its bytes, what the process can
-- read at its buffer, and `count`.
pub record Call : Type 0 where
  pub node : Outcome
  pub kbuf : Outcome
  pub buffer : List ℕ
  pub count : ℕ

module _ (user : UserAccess) where
  -- Where the copy fails, what `copy_from_user` returned is returned, and nothing is freed.
  unfoldable pub usr_proc_write : Call → ProcHead → ℤ × ProcHead
  usr_proc_write c s =
      let count = min c.count (user_limits - s.total) in
      let (left, bs) = user.copy_in c.buffer count in
      if c.count == 0
      then (pos 0, s)
      else if leb user_limits s.total
      then (enomem, s)
      else (elim c.node [
        | failed e ↦ (enomem, s)
        | done ↦ elim c.kbuf [
          | failed e ↦ (enomem, s)
          | done ↦
              if not (left == 0) then (pos left, record s { allocated = s.allocated + 1 }) else (
                pos count,
                record {
                  head = s.head ++ bs ∷ [];
                  total = s.total + count;
                  allocated = s.allocated + 1;
                },
              )
        ]
      ])

  unfoldable pub run : List Call → ProcHead → List ℤ × ProcHead
  run [] s = ([], s)
  run (c ∷ cs) s = let (r, s') = usr_proc_write c s in let (rs, s'') = run cs s' in (r ∷ rs, s'')

-- `sprintf(page + len, "%s", pos->kbuf)`: the bytes before the first 0.
unfoldable pub text : List ℕ → List ℕ
text [] = []
text (b ∷ bs) = let rest = text bs in if b == 0 then [] else b ∷ rest

-- The loop of `usr_proc_read`: what it writes to the page between its two lines.
unfoldable pub proc_text : List (List ℕ) → List ℕ
proc_text [] = []
proc_text (bs ∷ rest) = text bs ++ proc_text rest

-- `list_for_each_entry_safe ... kfree(pos)`
unfoldable pub free_all : List (List ℕ) → ℕ → ℕ
free_all [] allocated = allocated
free_all (bs ∷ rest) allocated = free_all rest (allocated - 1)

unfoldable pub init : Env → World → ℤ × World × ProcHead
init env w = elim (env (resource proc_entry 0)) [
  | failed e ↦ (enomem, w, empty)
  | done ↦ (pos 0, acquire (resource proc_entry 0) w, empty)
]

-- The nodes that are still allocated when the module is gone, and the world.
unfoldable pub exit : ProcHead → World → ℕ × World
exit s w = (free_all s.head s.allocated, release (resource proc_entry 0) w)
