-- ===== src/Kbuf/Tests/Devices.antt =====
-- The theorems on whole kbuf drivers at concrete inputs.
use kernel_code.Prelude.{
  some, pos, ℕ, ◌≡◌, none, List, [], ◌∷◌, negsuc, replicate, arith, if◌then◌else◌,
}
use kernel_code.Kernel.Errno.{done, failed}
use kernel_code.Kernel.World.{resource, proc_entry, same}
use kernel_code.Kernel.Device.{Env}
use kernel_code.Kernel.Memory.Simple.{mapped}
use kernel_code.Kbuf.Script.{get, reply}
use kernel_code.Kbuf.Buffer.{Buffer, IsValid, contents}
use kernel_code.Kbuf.Nonblocking
use kernel_code.Kbuf.Misc
use kernel_code.Kbuf.Misc.{Arg, answer, usr_rd_buf, usr_wr_buf, unlocked_ioctl}
use kernel_code.Kbuf.Misc.Laws.{unlocked_ioctl_lem}
use kernel_code.Kbuf.Chardrv.{Layout, open_minor, call, call-open_minor, update}
use kernel_code.Kbuf.Pipe

abbrev all_done : Env
all_done r = done

-- A kernel that refuses the entry under /proc of kbuf 2.
abbrev no_entry_2 : Env
no_entry_2 r = if same r (resource proc_entry 2) then failed 11 else done

abbrev two : Buffer
two = record { mem = 1 ∷ 2 ∷ replicate 510 0; validlen = 2 }

two-IsValid : IsValid two
two-IsValid = omega arith

-- A request for one byte whose count cannot be stored.
abbrev lost_count : Arg
lost_count = record { left = 0; room = 9; src = []; got = done; size = 1; stored = failed 13 }

unlocked_ioctl_lem_example :
    let (r, b') = unlocked_ioctl mapped usr_rd_buf lost_count two in
    ◌≡◌ {A = Misc.Answer × List ℕ} (r, contents b') (answer (negsuc 13) (1 ∷ []) none, 2 ∷ [])
    × IsValid b'
unfolding Pipe.read
unlocked_ioctl_lem_example = unlocked_ioctl_lem mapped lost_count two-IsValid usr_rd_buf

-- A kbuf of 80 bytes with its `struct cdev` behind two words.
abbrev somewhere : Layout
somewhere = record { base = 4096; size = 80; cdev_offset = 8; not_empty = omega arith }

call-open_minor_example :
    (elim (open_minor somewhere 3) [
      | none ↦ none
      | some filp ↦ some (call somewhere mapped filp (get 9 1) (λ i. two))
    ])
    ≡ some (reply (pos 1) (1 ∷ []), update (λ i. two) 3 (Nonblocking.read mapped 9 1 two).1)
unfolding Nonblocking.step Nonblocking.read
call-open_minor_example = call-open_minor somewhere mapped 3 (get 9 1) (λ i. two) (omega arith)
