-- ===== src/Laomits.antt =====
-- laomits/ts.c: a touch screen on the I2C bus. Its interrupt function schedules a work and shuts the
-- interrupt off; the work receives a message of the controller, reports it, and lets the interrupt in again.
pub mod Laws
pub mod Setup
mod Tests
use kernel_code.Prelude.{
  ℕ, ◌+◌, ◌-◌, ◌*◌, ◌/◌, ◌%◌, ◌^◌, Bool, true, false, Option, none, some, List, [], ◌∷◌, ◌++◌, ℤ,
  pos, get_or, ◌==◌, if◌then◌else◌, not,
}
use kernel_code.Kernel.Errno.{done, failed, code, enomem}
use kernel_code.Kernel.World.{resource, buffer, gpio, irq, input_device, World, acquire, release}
use kernel_code.Kernel.Device.{Env}
use kernel_code.Irq.InputKeys.{unregister}
use kernel_code.Irq.Touch.{Event, abs_x, abs_y, pressure, btn_touch, sync}

-- `disabled` counts the calls of `disable_irq_nosync` less those of `enable_irq`.
pub record Ft5206 : Type 0 where
  pub disabled : ℕ
  pub work_pending : Bool
  pub reports : List Event

abbrev pub start : Ft5206
start = record { disabled = 0; work_pending = false; reports = [] }

unfoldable pub do_ft5206_top : Ft5206 → Ft5206
do_ft5206_top s = record s { work_pending = true; disabled = s.disabled + 1 }

-- What is reported of a message: bits 6 and 7 of byte 3 are the event, the low half of byte 3 with
-- byte 4, and that of byte 5 with byte 6, the position. A `char` is a byte without sign.
unfoldable pub report : List ℕ → List Event
report regval =
    let at : ℕ → ℕ = λ i. get_or regval i 0 in
    let event = at 3 / 2 ^ 6 % 4 in
    if event == 0
    then pressure 1 ∷ btn_touch 1 ∷ []
    else if event == 1
    then pressure 0 ∷ btn_touch 0 ∷ []
    else if event == 2
    then abs_x (at 3 % 16 * 2 ^ 8 + at 4) ∷ abs_y (at 5 % 16 * 2 ^ 8 + at 6) ∷ []
    else []

-- `received` is what `i2c_master_recv` returns, and the bytes that it stored.
unfoldable pub do_ft5206_bh : (received : ℕ × List ℕ) → Ft5206 → Ft5206
do_ft5206_bh (ret, regval) s =
    if not (ret == 31)
    then s
    else record s { reports = s.reports ++ report regval ++ sync ∷ []; disabled = s.disabled - 1 }

-- The kernel runs the interrupt function only where the interrupt is not shut off, and the work
-- once for each time that it was scheduled.
unfoldable pub interrupt : Ft5206 → Ft5206
interrupt s = if s.disabled == 0 then do_ft5206_top s else s

unfoldable pub run_work : (received : ℕ × List ℕ) → Ft5206 → Ft5206
run_work received s =
    if s.work_pending then do_ft5206_bh received (record s { work_pending = false }) else s

-- `none` is a crash: `input_allocate_device` answers NULL, which `IS_ERR` does not tell from a device.
unfoldable pub ft5206_probe : Env → World → Option (ℤ × World)
ft5206_probe env w = elim (env (resource buffer 0)) [
  | failed e ↦ some (enomem, w)
  | done ↦
      let w₁ = acquire (resource buffer 0) w in
      elim (env (resource gpio 0)) [
        | failed e ↦ some (code (failed e), release (resource buffer 0) w₁)
        | done ↦
            let w₂ = acquire (resource gpio 0) w₁ in
            elim (env (resource irq 0)) [
              | failed e ↦
                  some (code (failed e), release (resource buffer 0) (release (resource gpio 0) w₂))
              | done ↦
                  let w₃ = acquire (resource irq 0) w₂ in
                  elim (env (resource input_device 0)) [
                    | failed e ↦ none
                    | done ↦
                        let w₄ = acquire (resource input_device 0) w₃ in
                        elim (env (resource input_device 1)) [
                          | failed e ↦ some (
                            code (failed e),
                            release (resource buffer 0) (
                                release (resource gpio 0) (
                                  release (resource irq 0) (release (resource input_device 0) w₄))),
                          )
                          | done ↦ some (pos 0, acquire (resource input_device 1) w₄)
                        ]
                  ]
            ]
      ]
]

unfoldable pub ft5206_remove : World → World
ft5206_remove w =
    release (resource buffer 0)
      (release (resource gpio 0) (release (resource irq 0) (unregister w)))
