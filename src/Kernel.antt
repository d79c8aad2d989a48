-- ===== src/Kernel.antt =====
-- What the drivers see of the kernel. The kernel is not part of the sources: what a call answers
-- is an argument of the functions that make it, and what a driver holds is counted in a `World`.
pub mod Errno
pub mod World
pub mod Device
pub mod Unwind
pub mod Lock
pub mod Memory
