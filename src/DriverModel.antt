-- ===== src/DriverModel.antt =====
-- driver_model/demo/mybus.c: a bus that finds the driver of a device by their names. The match functions of
-- driver_model/demo2/mybus.c and kernel_code_v1/drv_model/base/bus.c are those of Demo2 and Older.
pub mod Demo2
pub mod Older
pub mod Laws
mod Tests
use kernel_code.Prelude.{
  ℕ, zero, suc, Bool, true, false, List, [], ◌∷◌, ◌==◌, length, if◌then◌else◌,
}

-- `strncmp(a, b, n) == 0` for strings without their final 0: the first `n` characters are the same,
-- or both strings end before.
unfoldable pub same_start : List ℕ → List ℕ → (n : ℕ) → Bool
same_start a b zero = true
same_start [] [] (suc n) = true
same_start [] (y ∷ ys) (suc n) = false
same_start (x ∷ xs) [] (suc n) = false
same_start (x ∷ xs) (y ∷ ys) (suc n) =
    let rest = same_start xs ys n in if x == y then rest else false

-- `!strncmp(drv->name, pdev->name, strlen(drv->name))`
unfoldable pub mybus_match : (dev drv : List ℕ) → Bool
mybus_match dev drv = same_start drv dev (length drv)
