-- ===== src/App/Led/Tests.antt =====
-- LED 3 switched on, and the states as the program then shows them.
use kernel_code.Prelude.{◌≡◌, refl, true, false, [], ◌∷◌, arith}
use kernel_code.Kernel.Memory.Simple.{mapped}
use kernel_code.Leds.Register.{ledstat, bit}
use kernel_code.App.Led.{quiet, states, on_word, state_word, main_switch, main_state, switch_shows}

switch_shows_example :
    let (end, r') = main_switch mapped on_word 3 (record { con = 0x1111; dat = 0xf }) in
    (end ≡ quiet) × (main_state mapped state_word r' ≡ states (false ∷ false ∷ true ∷ false ∷ []))
unfolding ledstat bit
switch_shows_example =
    switch_shows mapped true 3 (record { con = 0x1111; dat = 0xf }) (omega arith) (omega arith) refl
      refl
