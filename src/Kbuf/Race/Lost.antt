-- ===== src/Kbuf/Race/Lost.antt =====
-- What two readers do to a kbuf that no lock protects.
use kernel_code.Prelude.{
  ℕ, ◌-◌, ◌^◌, ◌<◌, ◌≤◌, ◌≡◌, refl, min, Bool, true, false, List, [], ◌∷◌, pos, arith,
}
use kernel_code.Kernel.Memory.{UserAccess}
use kernel_code.Kbuf.Script.{reply}
use kernel_code.Kbuf.Buffer.{Buffer, IsValid, contents, shift_down, shrink}
use kernel_code.Kbuf.Race.{called, copied, returned, advance, turn, interleave}

abbrev pub in_turns : List Bool
in_turns = true ∷ false ∷ true ∷ false ∷ true ∷ false ∷ []

module _ (user : UserAccess) (b : Buffer) (v : IsValid b) where
  called-copied :
      (room cnt : ℕ)
      → 0 < b.validlen
      → b.validlen ≤ cnt
      → (user.copy_out room (contents b)).0 ≡ 0
      → advance user (called room cnt) b ≡ (b, copied b.validlen (contents b))
  unfolding advance
  called-copied room cnt some_there all ok =
      let n : min cnt b.validlen ≡ b.validlen = omega arith in
      rw n (ground (arith, user.out_all room (contents b)))

  wraps :
      (out : List ℕ)
      → 0 < b.validlen
      → let n = b.validlen in
        let s =
          interleave user
            (true ∷ false ∷ true ∷ false ∷ [])
            (record { buffer = b; one = copied n out; two = copied n out }) in
        (s.one ≡ returned (reply (pos n) out))
        × (s.two ≡ returned (reply (pos n) out))
        × (s.buffer.validlen ≡ 2 ^ 32 - n)
  unfolding interleave turn advance shrink shift_down
  wraps out some_there = (refl, refl, omega arith)

  -- Two processes that read a valid kbuf of v > 0 bytes, their steps in turns, each asking for
  -- all of them and with a copy that succeeds: both get all the bytes, and `validlen`, from
  -- which both subtract, wraps to 2^32 - v.
  pub both_read_all :
      (room cnt room' cnt' : ℕ)
      → 0 < b.validlen
      → b.validlen ≤ cnt
      → b.validlen ≤ cnt'
      → (user.copy_out room (contents b)).0 ≡ 0
      → (user.copy_out room' (contents b)).0 ≡ 0
      → let s =
          interleave user in_turns
            (record { buffer = b; one = called room cnt; two = called room' cnt' }) in
        (s.one ≡ returned (reply (pos b.validlen) (contents b)))
        × (s.two ≡ returned (reply (pos b.validlen) (contents b)))
        × (s.buffer.validlen ≡ 2 ^ 32 - b.validlen)
  unfolding interleave turn
  both_read_all room cnt room' cnt' some_there all all' ok ok' =
      let first = called-copied room cnt some_there all ok in
      let second = called-copied room' cnt' some_there all' ok' in
      rw (first, second) (wraps (contents b) some_there)
