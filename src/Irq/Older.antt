-- ===== src/Irq/Older.antt =====
-- The older drivers of the keys: kernel_code_v1/keys/key.c here; kernel_code_v1/inputsubsys_keys/key.c,
-- kernel_code_v1/demo_ts/ts.c and kernel_code_v1/demo_ts/mt.c in InputKeys, Ts and Mt.
pub mod Laws
pub mod Reports
pub mod InputKeys
pub mod Ts
pub mod Mt
pub mod Count
pub mod Tasklet
pub mod Workqueue
use kernel_code.Prelude.{
  ℕ, ◌+◌, ◌%◌, ◌^◌, true, false, Bool, List, [], ◌∷◌, ℤ, pos, is_negative, not, ◌==◌, ltb,
  if◌then◌else◌,
}
use kernel_code.Kernel.Errno.{done, failed, code, einval}
use kernel_code.Kernel.World.{resource, misc, World, acquire, release}
use kernel_code.Kernel.Device.{Env}
use kernel_code.Kernel.Memory.{UserAccess}
use kernel_code.Kernel.Unwind.{unwind, settle, sweep}
use kernel_code.Kbuf.Script.{Reply, reply}
use kernel_code.Irq.{add_irq, remove_irq}
use kernel_code.Irq.Keys.{set_at}

-- `keys[i].cnt` as 32 bits, the four characters of `kbuf`, and `dnup_flg`.
pub record Keys : Type 0 where
  pub cnt : ℕ → ℕ
  pub kbuf : ℕ → ℕ
  pub dnup_flg : ℕ

abbrev pub start : Keys
start = record { cnt = λ i. 0; kbuf = λ i. 48; dnup_flg = 0 }

-- `pdev->cnt%2 + '0'`: `0` or `1`, and `/` where `cnt` is negative and odd.
abbrev pub digit : ℕ → ℕ
digit bits = if bits % 2 == 0 then 48 else if ltb bits (2 ^ 31) then 49 else 47

unfoldable pub do_timer : ℕ → Keys → Keys
do_timer index s =
    let cnt' = (s.cnt index + 1) % 2 ^ 32 in
    record { cnt = set_at s.cnt index cnt'; kbuf = set_at s.kbuf index (digit cnt'); dnup_flg = 1 }

-- `wait` is the state as the wait for `dnup_flg != 0` leaves it.
unfoldable pub key_read : UserAccess → (wait : Keys → Keys) → (room cnt : ℕ) → Keys → Reply × Keys
key_read user wait room cnt s =
    let s' = wait s in
    let k = s'.kbuf in
    let (left, out) = user.copy_out room (k 0 ∷ k 1 ∷ k 2 ∷ k 3 ∷ []) in
    if not (cnt == 4)
    then (reply einval [], s)
    else if not (left == 0)
    then (reply einval out, s')
    else (reply (pos cnt) out, record s' { dnup_flg = 0 })

unfoldable pub register_4keys : Env → World → ℤ × World
register_4keys env w = settle remove_irq (pos 0) (λ v. v) (sweep (add_irq env) 4 0 w)

-- `while (i--) free_irq(keys[i].irqnum, keys+i)` from `ARRAY_SIZE(keys)`
unfoldable pub unregister_4keys : World → World
unregister_4keys w = unwind remove_irq 4 w

unfoldable pub init : Env → World → ℤ × World
init env w = elim (env (resource misc 0)) [
  | failed e ↦ (code (failed e), w)
  | done ↦
      let (ret, w') = register_4keys env (acquire (resource misc 0) w) in
      if is_negative ret then (ret, release (resource misc 0) w') else (pos 0, w')
]

unfoldable pub exit : World → World
exit w = release (resource misc 0) (unregister_4keys w)
