-- ===== src/Kbuf.antt =====
-- The byte buffers of the kbuf drivers.
pub mod Buffer
pub mod Script
pub mod Pipe
pub mod Nonblocking
pub mod Setup
pub mod Waiting
pub mod Block
pub mod Poll
pub mod Locked
pub mod Race
pub mod Mutex
pub mod Semaphore
pub mod Misc
pub mod Ioctl
pub mod Chardrv
mod Tests
