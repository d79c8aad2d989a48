-- ===== src/Irq/Older/InputKeys.antt =====
-- kernel_code_v1/inputsubsys_keys/key.c: the keys as a device of the input subsystem.
use kernel_code.Prelude.{
  ℕ, ◌+◌, ◌%◌, ◌^◌, Bool, List, [], ◌∷◌, ◌++◌, ℤ, pos, is_negative, if◌then◌else◌,
}
use kernel_code.Kernel.Errno.{done, failed, code, enomem}
use kernel_code.Kernel.World.{resource, input_device, World, acquire, release}
use kernel_code.Kernel.Device.{Env}
use kernel_code.Irq.InputKeys.{is_down, unregister}
use kernel_code.Irq.Keys.{set_at}
use kernel_code.Irq.Halves.{Halves}
use kernel_code.Irq.Halves.Older
use kernel_code.Irq.Older.{register_4keys, unregister_4keys}

-- The counts of the keys, and the reports: a key and whether it is down, oldest first.
pub record Direkey : Type 0 where
  pub cnt : ℕ → ℕ
  pub reports : List (ℕ × Bool)

unfoldable pub do_timer : ℕ → Direkey → Direkey
do_timer k s =
    let cnt' = (s.cnt k + 1) % 2 ^ 32 in
    record { cnt = set_at s.cnt k cnt'; reports = s.reports ++ (k, is_down cnt') ∷ [] }

unfoldable pub do_4key_bh : (arg : ℕ) → Halves Direkey → Halves Direkey
do_4key_bh arg s = Older.do_4key_bh arg s

unfoldable pub do_4keys : (arg : ℕ) → Halves Direkey → Halves Direkey
do_4keys arg s = Older.do_4keys arg s

unfoldable pub init : Env → World → ℤ × World
init env w = elim (env (resource input_device 0)) [
  | failed e ↦ (enomem, w)
  | done ↦
      let w₁ = acquire (resource input_device 0) w in
      elim (env (resource input_device 1)) [
        | failed e ↦ (code (failed e), release (resource input_device 0) w₁)
        | done ↦
            let w₂ = acquire (resource input_device 1) w₁ in
            let (ret, w₃) = register_4keys env w₂ in
            if is_negative ret then (ret, unregister w₃) else (pos 0, w₃)
      ]
]

unfoldable pub exit : World → World
exit w = unregister (unregister_4keys w)
