-- ===== src/Kernel/Device.antt =====
-- The calls by which drivers acquire resources, and what the kernel answers to each.
use kernel_code.Kernel.Errno.{Outcome}
use kernel_code.Kernel.World.{Resource}

-- An environment answers each request. A request is made at most once in an initialisation, so a
-- function of the resource covers every sequence of answers.
abbrev pub Env : Type 0
Env = Resource → Outcome
