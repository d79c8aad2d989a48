-- ===== src/Kbuf/Waiting.antt =====
-- A kbuf with two wait queues, as in kbufchardrv_block/kbuf.c and kbufchardrv_poll/kbuf.c, and what the
-- kernel does when a process waits on one.
pub mod Simple
use kernel_code.Prelude.{ℕ, ◌+◌, ◌≡◌, Bool, true}
use kernel_code.Kernel.Errno.{Outcome, done}
use kernel_code.Kbuf.Buffer.{Buffer, IsValid, empty_buffer}

-- A wait queue is the number of wake-ups that it was given.
pub record Device : Type 0 where
  pub buffer : Buffer
  pub waitr : ℕ
  pub waitw : ℕ

-- `wake_up_interruptible`
unfoldable pub wake_readers : Device → Device
wake_readers d = record d { waitr = d.waitr + 1 }

unfoldable pub wake_writers : Device → Device
wake_writers d = record d { waitw = d.waitw + 1 }

abbrev pub fresh : Device
fresh = record { buffer = empty_buffer; waitr = 0; waitw = 0 }

-- `wait_event_interruptible`: what it returns, and the device as it then is, after all that other
-- processes did meanwhile. A signal may end the wait before the condition holds.
pub record Waiter : Type 0 where
  pub wait : (Buffer → Bool) → Device → Outcome × Device
  -- If the condition holds the process does not sleep.
  pub at_once : (test : Buffer → Bool) (d : Device) → test d.buffer ≡ true → wait test d ≡ (done, d)
  -- 0 is returned only when the condition holds.
  pub woken :
      (test : Buffer → Bool) (d : Device)
      → (wait test d).0 ≡ done
      → test (wait test d).1.buffer ≡ true
  -- The other processes use the driver.
  pub keeps :
      (test : Buffer → Bool) (d : Device) → IsValid d.buffer → IsValid (wait test d).1.buffer
