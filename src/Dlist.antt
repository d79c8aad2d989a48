-- ===== src/Dlist.antt =====
-- dlist/dlist.c and dlist/dlist2.c: a queue of student records on a `struct list_head`. `kbuf_read`,
-- `kbuf_write` and the loop of `kbuf_exit`.
pub mod Queue
pub mod Laws
mod Tests
use kernel_code.Prelude.{
  ℕ, zero, suc, ◌+◌, ◌-◌, Option, none, some, List, [], ◌∷◌, ◌++◌, ℤ, pos, not, ◌==◌, ltb,
  if◌then◌else◌,
}
use kernel_code.Kernel.Errno.{Outcome, code, done, failed, einval, eagain, enomem}
use kernel_code.Kernel.World.{resource, misc, World, acquire, release}
use kernel_code.Kernel.Device.{Env}
use kernel_code.Kernel.Memory.{UserAccess}
use kernel_code.Kbuf.Script.{Reply, reply}

-- `struct stu`: the 36 bytes of a name and an age, which the driver only copies.
abbrev pub Stu : Type 0
Stu = List ℕ

abbrev pub sizeof_stu : ℕ
sizeof_stu = 36

abbrev pub limit_stu : ℕ
limit_stu = 50

-- `stuhead`: the records in the order of the list, and `num`; beside it, how many `struct stu_node` are
-- allocated.
pub record StuHead : Type 0 where
  pub head : List Stu
  pub num : ℕ
  pub allocated : ℕ

abbrev pub empty : StuHead
empty = record { head = []; num = 0; allocated = 0 }

module _ (user : UserAccess) where
  -- `none` is an access through `head.next` of a list that has no node.
  unfoldable pub read : (room cnt : ℕ) → StuHead → Option (Reply × StuHead)
  read room cnt s =
      if not (cnt == sizeof_stu)
      then some (reply einval [], s)
      else if s.num == 0
      then some (reply (pos 0) [], s)
      else (elim s.head [
        | [] ↦ none
        | stu ∷ rest ↦
            let (left, out) = user.copy_out room stu in
            if left == 0
            then some (
              reply (pos cnt) out,
              record { head = rest; num = s.num - 1; allocated = s.allocated - 1 },
            )
            else some (reply einval out, s)
      ])

  -- `memory` is what `kmalloc` answers. Where the copy fails, what `copy_from_user` returned is
  -- returned, and the node is neither linked nor freed.
  unfoldable pub write : (memory : Outcome) (src : List ℕ) (cnt : ℕ) → StuHead → ℤ × StuHead
  write memory src cnt s =
      let (left, stu) = user.copy_in src cnt in
      if not (cnt == sizeof_stu)
      then (einval, s)
      else if ltb limit_stu s.num
      then (eagain, s)
      else (elim memory [
        | failed e ↦ (enomem, s)
        | done ↦
            if left == 0
            then (
              pos cnt,
              record { head = s.head ++ stu ∷ []; num = s.num + 1; allocated = s.allocated + 1 },
            )
            else (pos left, record s { allocated = s.allocated + 1 })
      ])

-- `list_for_each_safe ... kfree(pstu)`
unfoldable pub free_all : List Stu → ℕ → ℕ
free_all [] allocated = allocated
free_all (stu ∷ rest) allocated = free_all rest (allocated - 1)

-- `stuhead` is static, so that `num` starts at 0.
unfoldable pub init : Env → World → ℤ × World × StuHead
init env w = elim (env (resource misc 0)) [
  | failed e ↦ (code (failed e), w, empty)
  | done ↦ (pos 0, acquire (resource misc 0) w, empty)
]

-- The nodes that are still allocated when the module is gone, and the world.
unfoldable pub exit : StuHead → World → ℕ × World
exit s w = (free_all s.head s.allocated, release (resource misc 0) w)

-- A call of a process.
pub data Op : Type 0 where
  get : (room cnt : ℕ) → Op
  put : (memory : Outcome) (src : List ℕ) (cnt : ℕ) → Op

unfoldable pub step : UserAccess → Op → StuHead → Option (Reply × StuHead)
step user (get room cnt) s = read user room cnt s
step user (put memory src cnt) s =
    let (r, s') = write user memory src cnt s in some (reply r [], s')

-- The calls one after another.
unfoldable pub run : UserAccess → List Op → StuHead → Option (List Reply × StuHead)
run user [] s = some ([], s)
run user (op ∷ ops) s = elim (step user op s) [
  | none ↦ none
  | some (r, s') ↦ elim (run user ops s') [ none ↦ none | some (rs, s'') ↦ some (r ∷ rs, s'') ]
]
