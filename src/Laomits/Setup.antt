-- ===== src/Laomits/Setup.antt =====
-- The resources of the touch screen on the I2C bus.
use kernel_code.Prelude.{
  ◌≡◌, Bool, true, false, ◌&&◌, Option, none, some, pos, is_negative, arith, if◌then◌else◌, ℤ,
}
use kernel_code.Kernel.Errno.{is_done}
use kernel_code.Kernel.World.{
  resource, buffer, gpio, irq, input_device, World, acquire, release-acquire,
}
use kernel_code.Kernel.Device.{Env}
use kernel_code.Irq.InputKeys.Reports.{registered, unregister-registered}
use kernel_code.Laomits.{ft5206_probe, ft5206_remove}

-- The memory, the pin and the interrupt, held on top of `w`.
abbrev pub attached : World → World
attached w = acquire (resource irq 0) (acquire (resource gpio 0) (acquire (resource buffer 0) w))

abbrev pub irq_granted : Env → Bool
irq_granted env =
    is_done (env (resource buffer 0))
    && is_done (env (resource gpio 0))
    && is_done (env (resource irq 0))

remove-attached : (w : World) → ft5206_remove (registered (attached w)) ≡ w
unfolding ft5206_remove
remove-attached w = rw (unregister-registered (attached w)) (simp release-acquire)

abbrev pub device_allocated : Env → Bool
device_allocated env = is_done (env (resource input_device 0))

-- What may come of a probe: a crash, or a result and the resources that are held then.
abbrev pub Probed : Env → World → Option (ℤ × World) → Type 0
Probed env w none = (irq_granted env ≡ true) × (device_allocated env ≡ false)
Probed env w (some (ret, w')) =
    if irq_granted env && device_allocated env && is_done (env (resource input_device 1))
    then (ret ≡ pos 0) × (ft5206_remove w' ≡ w)
    else (is_negative ret ≡ true) × (w' ≡ w)

-- `ft5206_probe` crashes only when the memory, the pin and the interrupt are granted and the input
-- device is not allocated. Otherwise it returns 0 if all is granted, and `ft5206_remove` gives back all
-- that it took; or it returns a negative error and holds nothing more than before.
pub probe_crashes_or_unwinds : (env : Env) (w : World) → Probed env w (ft5206_probe env w)
unfolding ft5206_probe
probe_crashes_or_unwinds env w = ground (
  arith,
  remove-attached w,
  release-acquire (resource buffer 0) w,
  release-acquire (resource gpio 0) (acquire (resource buffer 0) w),
  release-acquire (resource irq 0) (acquire (resource gpio 0) (acquire (resource buffer 0) w)),
  release-acquire (resource input_device 0) (attached w),
)

-- With the memory, the pin and the interrupt granted and no input device allocated, it does crash.
pub probe_crashes :
    (env : Env) (w : World)
    → irq_granted env ≡ true
    → device_allocated env ≡ false
    → ft5206_probe env w ≡ none
unfolding ft5206_probe
probe_crashes env w granted refused = ground arith
