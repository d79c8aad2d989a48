-- ===== src/DriverModel/Tests.antt =====
-- Names that match and names that do not.
use kernel_code.Prelude.{◌≡◌, refl, false, [], ◌∷◌}
use kernel_code.DriverModel.{mybus_match, same_start}

-- The driver has the longer name.
no_match : mybus_match (108 ∷ []) (108 ∷ 101 ∷ []) ≡ false
unfolding mybus_match same_start
no_match = refl
