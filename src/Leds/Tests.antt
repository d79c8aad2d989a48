-- ===== src/Leds/Tests.antt =====
-- The LED drivers at concrete inputs.
use kernel_code.Prelude.{◌≡◌, inl, refl, [], ◌∷◌, pos, negsuc, arith, if◌then◌else◌}
use kernel_code.Kernel.Errno.{done, failed}
use kernel_code.Kernel.World.{
  nothing_held, resource, gpio_output, mapping, proc_entry, chrdev_region, same, acquire,
}
use kernel_code.Kernel.Device.{Env}
use kernel_code.Kernel.Memory.Simple.{mapped}
use kernel_code.Kbuf.Script.{reply}
use kernel_code.Leds.Register.{Gpm4}
use kernel_code.Leds.Char
use kernel_code.Leds.Char.Setup.{init-exit_chrdev}
use kernel_code.Leds.Gpio
use kernel_code.Leds.Gpio.Laws.{read-write_pins}

-- LEDs 1 and 2 on, 3 and 4 off.
abbrev half_on : Gpm4
half_on = record { con = 0x1111; dat = 0xc }

abbrev no_entry : Env
no_entry r = if same r (resource proc_entry 0) then failed 11 else done

-- The major number is taken.
abbrev no_region : Env
no_region r = if same r (resource chrdev_region 0) then failed 15 else done

init-exit_chrdev_example :
    let (ret, w', r') = Char.init no_region nothing_held half_on in
    (ret ≡ negsuc 15) × (w' ≡ acquire (resource mapping 0) nothing_held)
init-exit_chrdev_example = init-exit_chrdev no_region nothing_held half_on half_on

abbrev all_off : Gpio.Pins
all_off i = 1

read-write_pins_example :
    let (ret, p') = Gpio.write mapped (0 ∷ 3 ∷ []) 2 all_off in
    (ret ≡ pos 2) × (Gpio.read mapped 4 4 p' ≡ reply (pos 4) (1 ∷ 1 ∷ 0 ∷ 1 ∷ []))
unfolding Gpio.ledstat
read-write_pins_example =
    read-write_pins mapped all_off 0 3 4 (inl refl) (omega arith) (omega arith) refl refl

-- The direction of pin 1 is refused: this pin stays requested.
abbrev no_output_1 : Env
no_output_1 r = if same r (resource gpio_output 1) then failed 21 else done

-- The registers cannot be mapped: 0 is returned, though nothing is held.
abbrev no_mapping : Env
no_mapping r = if same r (resource mapping 0) then failed 11 else done
