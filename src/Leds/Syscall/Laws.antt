-- ===== src/Leds/Syscall/Laws.antt =====
-- What a process sees of the LEDs through the system call.
use kernel_code.Prelude.{ℕ, ◌-◌, ◌≡◌, [], ℤ, pos, set, arith}
use kernel_code.Kernel.Memory.{UserAccess}
use kernel_code.Kbuf.Script.{reply}
use kernel_code.Leds.Register.{Gpm4}
use kernel_code.Leds.Register
use kernel_code.Leds.Register.Bits.{ledonoff_lem}
use kernel_code.Leds.Misc.Laws.{IsCommand}
use kernel_code.Leds.Syscall.{ledctl, ledonoff, ledstat}

module _ (user : UserAccess) (r : Gpm4) where
  -- A command for LED `num` returns 0; asked for the states, the call then shows that of this LED
  -- changed and the others as before, and changes nothing.
  pub ledctl-ledctl :
      (cmd num room₀ room : ℕ) (arg : ℤ)
      → IsCommand cmd num
      → (user.copy_out room (set (Register.ledstat r) (num - 1) cmd)).0 ≡ 0
      → let (first, r') = ledctl user (pos cmd) (pos num) room₀ r in
        (first ≡ reply (pos 0) [])
        × (ledctl user (pos 3) arg room r'
            ≡ (reply (pos 0) (set (Register.ledstat r) (num - 1) cmd), r'))
  unfolding ledctl ledonoff ledstat
  ledctl-ledctl cmd num room₀ room arg (c, lo, hi) ok =
      let (states, above, con) = ledonoff_lem cmd num r c lo hi in
      ground (arith, states, user.out_all room (set (Register.ledstat r) (num - 1) cmd))
