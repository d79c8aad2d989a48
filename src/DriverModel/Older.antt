-- ===== src/DriverModel/Older.antt =====
-- kernel_code_v1/drv_model/base/bus.c
use kernel_code.Prelude.{ℕ, Bool, List}
use kernel_code.DriverModel

unfoldable pub mymatch : (dev drv : List ℕ) → Bool
mymatch dev drv = DriverModel.mybus_match dev drv
