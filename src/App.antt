-- ===== src/App.antt =====
-- Programs that use the drivers, and the two threads of locks/app/main.c.
pub mod Threads
pub mod Keys
pub mod Led
pub mod Kbuf
pub mod Students
pub mod Sysled
pub mod Buzzer
pub mod Server
