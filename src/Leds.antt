-- ===== src/Leds.antt =====
-- The drivers of the four LEDs on the board.
pub mod Register
pub mod Misc
pub mod Char
pub mod Gpio
pub mod Older
pub mod Syscall
mod Tests
