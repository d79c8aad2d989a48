-- ===== src/Kbuf/Locked/Invariant.antt =====
-- What holds between the steps of the processes: at most one is between lock and unlock, and its
-- access, once finished, will have been the undivided call of the driver without a lock.
use kernel_code.Prelude.{ℕ, ◌≡◌, refl, Bool, true, false, [], ◌∷◌, pos, arith, if◌then◌else◌}
use kernel_code.Kernel.Memory.{UserAccess}
use kernel_code.Kernel.Lock.{Lock}
use kernel_code.Kbuf.Script.{Op, Reply, reply}
use kernel_code.Kbuf.Buffer.{Buffer, IsValid, empty_buffer, shrink, shift_down, grow}
use kernel_code.Kbuf.Nonblocking
use kernel_code.Kbuf.Locked.{
  Pc, idle, locking, entered, copied, shifted, stored, leaving, Log, asks_nothing, System, start,
}

abbrev pub in_section : Pc → Bool
in_section idle = false
in_section (locking op) = false
in_section _ = true

module _ (user : UserAccess) where
  -- The calls of the log, made one after another on an empty kbuf without a lock, return what the log
  -- says and leave the kbuf as it is given.
  pub data Serial : Log → Buffer → Type 0 where
    none_yet : Serial [] empty_buffer
    then_call :
        {log : Log} {b b' : Buffer} {op : Op} {r : Reply}
        → Serial log b
        → Nonblocking.step user op b ≡ (r, b')
        → Serial ((op, r) ∷ log) b'

  -- `base` is the kbuf when the lock was taken, `now` what it is, for a process that stands at `p`.
  abbrev pub Fits : (base now : Buffer) → Pc → Type 0
  Fits base now idle = Unit
  Fits base now (locking op) = asks_nothing op ≡ false
  Fits base now (entered op) = (now ≡ base) × (asks_nothing op ≡ false)
  Fits base now (copied op n out) =
      Nonblocking.step user op base ≡ (reply (pos n) out, shrink n (shift_down n now))
  Fits base now (shifted op n out) =
      Nonblocking.step user op base ≡ (reply (pos n) out, shrink n now)
  Fits base now (stored op n) = Nonblocking.step user op base ≡ (reply (pos n) [], grow n now)
  Fits base now (leaving op r) = Nonblocking.step user op base ≡ (r, now)

  -- Outside the section nothing is said of the kbuf.
  pub Fits-outside :
      (base now base' now' : Buffer) (p : Pc)
      → in_section p ≡ false
      → Fits base now p
      → Fits base' now' p
  Fits-outside base now base' now' idle out f = tt
  Fits-outside base now base' now' (locking op) out f = f
  Fits-outside base now base' now' (entered op) out f = cc
  Fits-outside base now base' now' (copied op n o) out f = cc
  Fits-outside base now base' now' (shifted op n o) out f = cc
  Fits-outside base now base' now' (stored op n) out f = cc
  Fits-outside base now base' now' (leaving op r) out f = cc

  module _ (lock : Lock) where
    pub record Inv (s : System user lock) : Type 0 where
      pub base : Buffer
      pub valid : IsValid base
      pub serial : Serial s.shared.log base
      pub held : Bool
      pub lock_state : s.shared.lock ≡ (if held then lock.taken else lock.free)
      pub quiet : held ≡ false → s.shared.buffer ≡ base
      pub outside : held ≡ false → (i : ℕ) → in_section (s.pc i) ≡ false
      pub owner : held ≡ true → (i : ℕ) × (in_section (s.pc i) ≡ true)
      pub unique : (i j : ℕ) → in_section (s.pc i) ≡ true → in_section (s.pc j) ≡ true → i ≡ j
      pub fits : (i : ℕ) → Fits base s.shared.buffer (s.pc i)

    pub start-Inv : Inv (start user lock)
    start-Inv = record {
      base = empty_buffer;
      valid = omega arith;
      serial = none_yet;
      held = false;
      lock_state = refl;
      quiet = λ h. refl;
      outside = λ h i. refl;
      owner = λ h. cc;
      unique = λ i j a b. cc;
      fits = λ i. tt;
    }
