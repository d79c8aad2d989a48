-- ===== src/Leds/Register.antt =====
-- The GPM4 registers that drive the LEDs, and `ledonoff` and `ledstat` of miscled/led.c and
-- ledchar/led.c.
pub mod Bits
use kernel_code.Prelude.{ℕ, ◌+◌, ◌-◌, ◌*◌, ◌/◌, ◌%◌, ◌^◌, List, [], ◌∷◌, ◌==◌, if◌then◌else◌}

-- GPM4CON has 32 bits, of GPM4DAT the drivers use 8; a bit of GPM4DAT that is set puts its LED off.
pub record Gpm4 : Type 0 where
  pub con : ℕ
  pub dat : ℕ

-- Bit `k` of `x`.
unfoldable pub bit : ℕ → ℕ → ℕ
bit x k = x / 2 ^ k % 2

-- `x & ~(1 << k)`, `x | (1 << k)`
unfoldable pub clear_bit : ℕ → ℕ → ℕ
unfolding bit
clear_bit x k = x - bit x k * 2 ^ k

unfoldable pub set_bit : ℕ → ℕ → ℕ
unfolding clear_bit
set_bit x k = clear_bit x k + 2 ^ k

-- `x & ~0xffff | 0x1111` and `x | 0xf`
abbrev pub all_outputs : ℕ → ℕ
all_outputs x = x / 2 ^ 16 * 2 ^ 16 + 0x1111

abbrev pub all_off : ℕ → ℕ
all_off x = x / 2 ^ 4 * 2 ^ 4 + 0xf

-- The enumeration of miscled/led.c and ledchar/led.c.
abbrev pub led_on : ℕ
led_on = 1

abbrev pub led_off : ℕ
led_off = 2

unfoldable pub ledonoff : (cmd num : ℕ) → Gpm4 → Gpm4
ledonoff cmd num r =
    if cmd == led_on
    then record r { dat = clear_bit r.dat (num - 1) }
    else record r { dat = set_bit r.dat (num - 1) }

-- One byte for each of the four LEDs.
abbrev pub stat : ℕ → ℕ → ℕ
stat s i = if bit s i == 0 then led_on else led_off

unfoldable pub ledstat : Gpm4 → List ℕ
ledstat r = stat r.dat 0 ∷ stat r.dat 1 ∷ stat r.dat 2 ∷ stat r.dat 3 ∷ []
