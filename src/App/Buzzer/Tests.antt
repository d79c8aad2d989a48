-- ===== src/App/Buzzer/Tests.antt =====
-- The buzzer is set to 440 Hz.
use kernel_code.Prelude.{false, pos}
use kernel_code.Buzzer.{Buzzer}
use kernel_code.App.Buzzer.{main_sethz, Ends, main_sethz-Ends}

abbrev silent : Buzzer
silent = record { duty_ns = 0; period_ns = 0; enabled = false; pwm_pin = false }

main_sethz-Ends_example : Ends silent (pos 440) (main_sethz (pos 440) silent)
main_sethz-Ends_example = main_sethz-Ends (pos 440) silent
