-- ===== src/Kbuf/Ioctl.antt =====
-- kbufioctl/kbuf.c beside its `ioctl`: the functions that it shares with kbufmisc/kbuf.c.
use kernel_code.Prelude.{ℕ, List, ℤ}
use kernel_code.Kernel.World.{World}
use kernel_code.Kernel.Device.{Env}
use kernel_code.Kernel.Memory.{UserAccess}
use kernel_code.Kbuf.Script.{Reply}
use kernel_code.Kbuf.Buffer.{Buffer}
use kernel_code.Kbuf.Misc

unfoldable pub read : UserAccess → (room cnt : ℕ) → Buffer → Reply × Buffer
read user room cnt kbufs = Misc.read user room cnt kbufs

unfoldable pub write : UserAccess → (src : List ℕ) (cnt : ℕ) → Buffer → ℤ × Buffer
write user src cnt kbufs = Misc.write user src cnt kbufs

unfoldable pub init : Env → World → ℤ × World
init env w = Misc.init env w

unfoldable pub exit : World → World
exit w = Misc.exit w
