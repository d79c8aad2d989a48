-- ===== src/DriverModel/Laws.antt =====
-- Which drivers a device gets.
use kernel_code.Prelude.{ℕ, ◌≡◌, ◌↔◌, refl, ap, ◌∙◌, true, List, [], ◌∷◌, ◌++◌, arith}
use kernel_code.DriverModel.{same_start, mybus_match}

-- A name begins with another one.
abbrev pub BeginsWith : (dev drv : List ℕ) → Type 0
BeginsWith dev drv = (rest : List ℕ) × (dev ≡ drv ++ rest)

matched : (drv dev : List ℕ) → mybus_match dev drv ≡ true → BeginsWith dev drv
unfolding mybus_match same_start
matched [] dev h = (dev, refl)
matched (x ∷ xs) [] h = cc
matched (x ∷ xs) (y ∷ ys) h =
    let same : x ≡ y = ground arith in
    let (rest, e) = matched xs ys (ground arith) in (rest, cc (same, e))

begins : (drv rest : List ℕ) → mybus_match (drv ++ rest) drv ≡ true
unfolding mybus_match same_start
begins [] rest = refl
begins (x ∷ xs) rest = ground (arith, begins xs rest)

-- A driver matches a device exactly if its name is the beginning of the name of the device. So a driver
-- without a name matches all devices, and a driver `led` a device `led2`.
pub match_begins : (dev drv : List ℕ) → (mybus_match dev drv ≡ true) ↔ BeginsWith dev drv
match_begins dev drv = (matched drv dev, λ b. ap (λ d. mybus_match d drv) b.1 ∙ begins drv b.0)
