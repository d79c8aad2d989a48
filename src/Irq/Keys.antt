-- ===== src/Irq/Keys.antt =====
-- keys/key.c: an interrupt of a key starts a timer against bounces, the timer starts a tasklet, the
-- tasklet records the key, and a read waits for that.
pub mod Setup
pub mod Debounce
use kernel_code.Prelude.{
  ℕ, ◌+◌, ◌%◌, ◌^◌, Bool, true, false, List, [], ◌∷◌, ℤ, pos, is_negative, not, ◌==◌, ltb,
  if◌then◌else◌,
}
use kernel_code.Kernel.Errno.{done, failed, code, einval}
use kernel_code.Kernel.World.{resource, misc, World, acquire, release}
use kernel_code.Kernel.Device.{Env}
use kernel_code.Kernel.Memory.{UserAccess}
use kernel_code.Kbuf.Script.{Reply, reply}
use kernel_code.Irq.{request_irq_key, free_irq_key}

-- A timer or a tasklet: the argument of its function, and whether it is to run.
pub record Deferred : Type 0 where
  pub arg : ℕ
  pub pending : Bool

-- `keys[i].cnt` is an `int`, kept as its 32 bits. A key stands for its `struct key_t` by its number.
pub record State : Type 0 where
  pub cnt : ℕ → ℕ
  pub kbuf : ℕ → ℕ
  pub key_dnup_flag : ℕ
  pub timer : Deferred
  pub task : Deferred

abbrev pub set_at : (ℕ → ℕ) → ℕ → ℕ → ℕ → ℕ
set_at f i v j = if i == j then v else f j

-- The bits of the `char` that `cnt % 2` is stored to: 0 or 1, or the bits of -1 for a negative `cnt`.
abbrev pub parity : ℕ → ℕ
parity bits = if bits % 2 == 0 then 0 else if ltb bits (2 ^ 31) then 1 else 255

-- `setup_timer(&timer, do_timer_key, 0)` and `tasklet_init(&task, do_bh_key, 0)`
abbrev pub start : State
start = record {
  cnt = λ i. 0;
  kbuf = λ i. 0;
  key_dnup_flag = 0;
  timer = record { arg = 0; pending = false };
  task = record { arg = 0; pending = false };
}

-- `do_key_irq_tp`: one timer serves all keys.
unfoldable pub do_key_irq_tp : (dev : ℕ) → State → State
do_key_irq_tp dev s = record s { timer = record { arg = dev; pending = true } }

-- `do_timer_key`; `tasklet_schedule` does nothing more where the tasklet is already to run.
unfoldable pub do_timer_key : (arg : ℕ) → State → State
do_timer_key arg s = record s { task = record { arg = arg; pending = true } }

unfoldable pub do_bh_key : (arg : ℕ) → State → State
do_bh_key idx s =
    let cnt' = (s.cnt idx + 1) % 2 ^ 32 in
    record s {
      cnt = set_at s.cnt idx cnt';
      kbuf = set_at s.kbuf idx (parity cnt');
      key_dnup_flag = 1;
    }

-- The kernel runs the function of the timer, or of the tasklet, if it is to run.
unfoldable pub expire : State → State
expire s =
    if s.timer.pending
    then do_timer_key s.timer.arg (record s { timer = record s.timer { pending = false } })
    else s

unfoldable pub run_tasklet : State → State
run_tasklet s =
    if s.task.pending
    then do_bh_key s.task.arg (record s { task = record s.task { pending = false } })
    else s

-- `wait` is the state as the wait for `key_dnup_flag == 1` leaves it; what the wait returns is not
-- looked at.
unfoldable pub key_read :
    UserAccess → (wait : State → State) → (room cnt : ℕ) → State → Reply × State
key_read user wait room cnt s =
    let s' = wait s in
    let k = s'.kbuf in
    let (left, out) = user.copy_out room (k 0 ∷ k 1 ∷ k 2 ∷ k 3 ∷ []) in
    if not (cnt == 4)
    then (reply einval [], s)
    else if not (left == 0)
    then (reply einval out, s')
    else (reply (pos cnt) out, record s' { key_dnup_flag = 0 })

unfoldable pub init : Env → World → ℤ × World
init env w =
    let (ret, w') = request_irq_key env w in
    if is_negative ret then (ret, w') else (elim (env (resource misc 0)) [
      | failed e ↦ (code (failed e), free_irq_key w')
      | done ↦ (pos 0, acquire (resource misc 0) w')
    ])

unfoldable pub exit : World → World
exit w = release (resource misc 0) (free_irq_key w)
