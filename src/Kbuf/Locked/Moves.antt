-- ===== src/Kbuf/Locked/Moves.antt =====
-- Each step of each process keeps the invariant of the locked kbuf.
use kernel_code.Prelude.{
  ℕ, ◌≡◌, refl, sym, subst, true, false, none, some, [], pos, arith, min, ◌==◌, Bool-cases, inl,
  inr, Option-cases,
}
use kernel_code.Kernel.Memory.{UserAccess}
use kernel_code.Kernel.Lock.{Lock}
use kernel_code.Kbuf.Script.{Op, get, put, reply}
use kernel_code.Kbuf.Buffer.{Buffer, sz_512, sub_size, slice}
use kernel_code.Kbuf.Nonblocking
use kernel_code.Kbuf.Locked.{
  Pc, idle, locking, entered, copied, shifted, stored, leaving, Shared, asks_nothing, System, begin,
  advance, put_back, Step, starts, moves, Reach, here, next,
}
use kernel_code.Kbuf.Locked.Invariant.{in_section, then_call, Fits, Inv, start-Inv}
use kernel_code.Kbuf.Locked.Section.{stay_outside, stay_inside, enter, leave}

-- A call that asks for no bytes changes nothing.
step-nothing :
    (user : UserAccess) (op : Op) (b : Buffer)
    → asks_nothing op ≡ true
    → Nonblocking.step user op b ≡ (reply (pos 0) [], b)
unfolding Nonblocking.step Nonblocking.read Nonblocking.write
step-nothing user (get room cnt) b h = ground arith
step-nothing user (put src cnt) b h = ground arith

module _ (user : UserAccess) (lock : Lock) where
  -- From the test of `validlen` a process stays in the section, with the call that it is making.
  entered_shape :
      (op : Op) (m : Shared lock.State)
      → let (m', p) = advance user lock (entered op) m in
        (m' ≡ record m { buffer = m'.buffer }) × (in_section p ≡ true)
  unfolding advance
  entered_shape (get room cnt) m = ground arith
  entered_shape (put src cnt) m = ground arith

  entered-Fits :
      (op : Op) (m : Shared lock.State)
      → asks_nothing op ≡ false
      → let (m', p) = advance user lock (entered op) m in Fits user m.buffer m'.buffer p
  unfolding advance Nonblocking.step Nonblocking.read Nonblocking.write
  entered-Fits (get room cnt) m h =
      let n = min cnt m.buffer.validlen in
      elim (Bool-cases (m.buffer.validlen == 0)) [
        | inl none_there ↦ rw none_there (ground arith)
        | inr some_there ↦
            elim (Bool-cases ((user.copy_out room (slice m.buffer.mem 0 n)).0 == 0)) [
              | inl all ↦ rw (some_there, all) (ground arith)
              | inr fault ↦ rw (some_there, fault) (ground arith)
            ]
      ]
  entered-Fits (put src cnt) m h =
      let n = min cnt (sub_size sz_512 m.buffer.validlen) in
      elim (Bool-cases (m.buffer.validlen == sz_512)) [
        | inl full ↦ rw full (ground arith)
        | inr free ↦ elim (Bool-cases ((user.copy_in src n).0 == 0)) [
          | inl all ↦ rw (free, all) (ground arith)
          | inr fault ↦ rw (free, fault) (ground arith)
        ]
      ]

  locking_busy :
      (op : Op) (m : Shared lock.State)
      → lock.try m.lock ≡ none
      → advance user lock (locking op) m ≡ (m, locking op)
  unfolding advance
  locking_busy op m busy = rw (busy, advance)

  locking_got :
      (op : Op) (m : Shared lock.State) {l : lock.State}
      → lock.try m.lock ≡ some l
      → advance user lock (locking op) m ≡ (record m { lock = l }, entered op)
  unfolding advance
  locking_got op m got = rw (got, advance)

  module _ {s : System user lock} (inv : Inv user lock s) (i : ℕ) where
    open inv use {base, serial, fits}

    begin-Inv :
        (op : Op)
        → s.pc i ≡ idle
        → Inv user lock (put_back user lock s i (begin user lock op s.shared))
    unfolding begin
    begin-Inv op at_rest = elim (Bool-cases (asks_nothing op)) [
      | inl nothing ↦ rw nothing (
          stay_outside user lock inv i idle (rw at_rest) refl tt
            (then_call serial (step-nothing user op base nothing)))
      | inr something ↦
          rw something
            (stay_outside user lock inv i (locking op) (rw at_rest) refl something serial)
    ]

    locking-Inv :
        (op : Op)
        → s.pc i ≡ locking op
        → Inv user lock (put_back user lock s i (advance user lock (locking op) s.shared))
    locking-Inv op e = elim (Option-cases (lock.try s.shared.lock)) [
      | inl busy ↦
          rw (locking_busy op s.shared busy)
            (stay_outside user lock inv i (locking op) (rw e) refl asks serial)
      | inr (l, got) ↦ rw (locking_got op s.shared got) (enter user lock inv i op (rw e) asks got)
    ]
      where
        asks : asks_nothing op ≡ false
        asks = rw e at (fits i)

    entered-Inv :
        (op : Op)
        → s.pc i ≡ entered op
        → Inv user lock (put_back user lock s i (advance user lock (entered op) s.shared))
    entered-Inv op e =
        subst (λ x. Inv user lock (put_back user lock s i (x, r.1))) (sym shape.0)
          (stay_inside user lock inv i r.1 r.0.buffer (rw e) shape.1 (
            subst (λ b. Fits user b r.0.buffer r.1) at_base.0 (entered-Fits op s.shared at_base.1)))
      where
        r : Shared lock.State × Pc
        r = advance user lock (entered op) s.shared

        shape : (r.0 ≡ record s.shared { buffer = r.0.buffer }) × (in_section r.1 ≡ true)
        shape = entered_shape op s.shared

        at_base : (s.shared.buffer ≡ base) × (asks_nothing op ≡ false)
        at_base = rw e at (fits i)

    pub advance-Inv :
        (p : Pc)
        → s.pc i ≡ p
        → Inv user lock (put_back user lock s i (advance user lock p s.shared))
    unfolding advance
    advance-Inv idle e = stay_outside user lock inv i idle (rw e) refl tt serial
    advance-Inv (locking op) e = locking-Inv op e
    advance-Inv (entered op) e = entered-Inv op e
    advance-Inv (copied op n out) e = stay_inside user lock inv i _ _ (rw e) refl (rw e at (fits i))
    advance-Inv (shifted op n out) e =
        stay_inside user lock inv i _ _ (rw e) refl (rw e at (fits i))
    advance-Inv (stored op n) e = stay_inside user lock inv i _ _ (rw e) refl (rw e at (fits i))
    advance-Inv (leaving op r) e = leave user lock inv i op r e

  pub Step-Inv : {s t : System user lock} → Step user lock s t → Inv user lock s → Inv user lock t
  Step-Inv (starts i op at_rest) inv = begin-Inv inv i op at_rest
  Step-Inv {s} (moves i) inv = advance-Inv inv i (s.pc i) refl

  pub Reach-Inv : {s : System user lock} → Reach user lock s → Inv user lock s
  Reach-Inv here = start-Inv user lock
  Reach-Inv (next r st) = Step-Inv st (Reach-Inv r)
