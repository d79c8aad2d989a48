-- ===== src/Irq/InputKeys.antt =====
-- input/keys/key.c: the keys as a device of the input subsystem. Interrupt, timer and tasklet are those
-- of keys/key.c; the tasklet reports each key that was pressed or let go.
pub mod Reports
use kernel_code.Prelude.{
  ℕ, ◌+◌, ◌%◌, ◌^◌, Bool, true, false, List, [], ◌∷◌, ◌++◌, ℤ, pos, is_negative, ◌==◌, ltb,
  if◌then◌else◌,
}
use kernel_code.Kernel.Errno.{done, failed, code, enomem}
use kernel_code.Kernel.World.{resource, input_device, World, acquire, release}
use kernel_code.Kernel.Device.{Env}
use kernel_code.Irq.{request_irq_key, free_irq_key}
use kernel_code.Irq.Keys.{Deferred, set_at}

-- `cnt % 2` of an `int` that is kept as its 32 bits: 0, 1 or -1. The value of an event of a key is
-- only tested for 0.
abbrev pub is_down : ℕ → Bool
is_down bits = ltb 0 (bits % 2)

-- The counts, and the events that were reported, each a key and whether it is down, oldest first.
pub record State : Type 0 where
  pub cnt : ℕ → ℕ
  pub reports : List (ℕ × Bool)
  pub timer : Deferred
  pub task : Deferred

abbrev pub start : State
start = record {
  cnt = λ i. 0;
  reports = [];
  timer = record { arg = 0; pending = false };
  task = record { arg = 0; pending = false };
}

unfoldable pub do_key_irq_tp : (dev : ℕ) → State → State
do_key_irq_tp dev s = record s { timer = record { arg = dev; pending = true } }

unfoldable pub do_timer_key : (arg : ℕ) → State → State
do_timer_key arg s = record s { task = record { arg = arg; pending = true } }

unfoldable pub do_bh_key : (arg : ℕ) → State → State
do_bh_key idx s =
    let cnt' = (s.cnt idx + 1) % 2 ^ 32 in
    record s { cnt = set_at s.cnt idx cnt'; reports = s.reports ++ (idx, is_down cnt') ∷ [] }

unfoldable pub expire : State → State
expire s =
    if s.timer.pending
    then do_timer_key s.timer.arg (record s { timer = record s.timer { pending = false } })
    else s

unfoldable pub run_tasklet : State → State
run_tasklet s =
    if s.task.pending
    then do_bh_key s.task.arg (record s { task = record s.task { pending = false } })
    else s

-- `input_device` 0 is the structure, 1 its registration: `input_unregister_device` gives back both.
unfoldable pub unregister : World → World
unregister w = release (resource input_device 0) (release (resource input_device 1) w)

unfoldable pub init : Env → World → ℤ × World
init env w = elim (env (resource input_device 0)) [
  | failed e ↦ (enomem, w)
  | done ↦
      let w₁ = acquire (resource input_device 0) w in
      elim (env (resource input_device 1)) [
        | failed e ↦ (code (failed e), release (resource input_device 0) w₁)
        | done ↦
            let w₂ = acquire (resource input_device 1) w₁ in
            let (error, w₃) = request_irq_key env w₂ in
            if is_negative error then (error, unregister w₃) else (pos 0, w₃)
      ]
]

unfoldable pub exit : World → World
exit w = unregister (free_irq_key w)
