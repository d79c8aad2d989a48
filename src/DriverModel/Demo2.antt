-- ===== src/DriverModel/Demo2.antt =====
-- driver_model/demo2/mybus.c
use kernel_code.Prelude.{ℕ, Bool, List}
use kernel_code.DriverModel

unfoldable pub mybus_match : (dev drv : List ℕ) → Bool
mybus_match dev drv = DriverModel.mybus_match dev drv
