-- ===== src/Kbuf/Waiting/Simple.antt =====
-- A wait that ends at once: if the condition does not hold, a signal has come. It meets the laws of `Waiter`.
use kernel_code.Prelude.{◌≡◌, refl, Bool, true, arith, if◌then◌else◌}
use kernel_code.Kernel.Errno.{Outcome, done, failed}
use kernel_code.Kbuf.Buffer.{Buffer}
use kernel_code.Kbuf.Waiting.{Device, Waiter}

-- -ERESTARTSYS
abbrev pub interrupted : (Buffer → Bool) → Device → Outcome × Device
interrupted test d = (if test d.buffer then done else failed 511, d)

pub interrupted-at_once :
    (test : Buffer → Bool) (d : Device) → test d.buffer ≡ true → interrupted test d ≡ (done, d)
interrupted-at_once test d h = rw h refl

pub interrupted-woken :
    (test : Buffer → Bool) (d : Device) → (interrupted test d).0 ≡ done → test d.buffer ≡ true
interrupted-woken test d h = ground arith

abbrev pub signals : Waiter
signals = record {
  wait = interrupted;
  at_once = interrupted-at_once;
  woken = interrupted-woken;
  keeps = λ test d v. v;
}
