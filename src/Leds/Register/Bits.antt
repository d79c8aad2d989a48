-- ===== src/Leds/Register/Bits.antt =====
-- A command changes the LED that it names and nothing else.
use kernel_code.Prelude.{
  ℕ, zero, suc, ◌-◌, ◌/◌, ◌≤◌, ◌<◌, ◌≡◌, ◌⊎◌, inl, inr, refl, set, arith, ◌==◌, if◌then◌else◌,
}
use kernel_code.Leds.Register.{Gpm4, bit, clear_bit, set_bit, led_on, led_off, ledonoff, ledstat}

-- Of the bits of `x`, `y` has `v` at `k`, and else the same.
pub record Written (x y k v : ℕ) : Type 0 where
  pub bit_0 : bit y 0 ≡ (if k == 0 then v else bit x 0)
  pub bit_1 : bit y 1 ≡ (if k == 1 then v else bit x 1)
  pub bit_2 : bit y 2 ≡ (if k == 2 then v else bit x 2)
  pub bit_3 : bit y 3 ≡ (if k == 3 then v else bit x 3)
  pub above : y / 16 ≡ x / 16

module _ (x : ℕ) where
  clear_0 : Written x (clear_bit x 0) 0 0
  unfolding clear_bit
  clear_0 = omega arith

  clear_1 : Written x (clear_bit x 1) 1 0
  unfolding clear_bit
  clear_1 = omega arith

  clear_2 : Written x (clear_bit x 2) 2 0
  unfolding clear_bit
  clear_2 = omega arith

  clear_3 : Written x (clear_bit x 3) 3 0
  unfolding clear_bit
  clear_3 = omega arith

  set_0 : Written x (set_bit x 0) 0 1
  unfolding set_bit
  set_0 = omega arith

  set_1 : Written x (set_bit x 1) 1 1
  unfolding set_bit
  set_1 = omega arith

  set_2 : Written x (set_bit x 2) 2 1
  unfolding set_bit
  set_2 = omega arith

  set_3 : Written x (set_bit x 3) 3 1
  unfolding set_bit
  set_3 = omega arith

  pub clear_bit-Written : (k : ℕ) → k < 4 → Written x (clear_bit x k) k 0
  clear_bit-Written zero h = clear_0
  clear_bit-Written (suc zero) h = clear_1
  clear_bit-Written (suc (suc zero)) h = clear_2
  clear_bit-Written (suc (suc (suc zero))) h = clear_3
  clear_bit-Written (suc (suc (suc (suc k)))) h = absurd (omega arith)

  pub set_bit-Written : (k : ℕ) → k < 4 → Written x (set_bit x k) k 1
  set_bit-Written zero h = set_0
  set_bit-Written (suc zero) h = set_1
  set_bit-Written (suc (suc zero)) h = set_2
  set_bit-Written (suc (suc (suc zero))) h = set_3
  set_bit-Written (suc (suc (suc (suc k)))) h = absurd (omega arith)

-- The four states of a register of which one bit was written.
pub ledstat-Written :
    (r r' : Gpm4) (k v : ℕ)
    → k < 4
    → Written r.dat r'.dat k v
    → ledstat r' ≡ set (ledstat r) k (if v == 0 then led_on else led_off)
unfolding ledstat
ledstat-Written r r' zero v h w = ground arith
ledstat-Written r r' (suc zero) v h w = ground arith
ledstat-Written r r' (suc (suc zero)) v h w = ground arith
ledstat-Written r r' (suc (suc (suc zero))) v h w = ground arith
ledstat-Written r r' (suc (suc (suc (suc k)))) v h w = absurd (omega arith)

-- A command 1 or 2 for LED `num` from 1 to 4 puts that LED on or off; the states of the other LEDs,
-- the upper bits of GPM4DAT and GPM4CON stay as they are.
pub ledonoff_lem :
    (cmd num : ℕ) (r : Gpm4)
    → (cmd ≡ led_on) ⊎ (cmd ≡ led_off)
    → 1 ≤ num
    → num ≤ 4
    → let r' = ledonoff cmd num r in
      (ledstat r' ≡ set (ledstat r) (num - 1) cmd) × (r'.dat / 16 ≡ r.dat / 16) × (r'.con ≡ r.con)
unfolding ledonoff
ledonoff_lem cmd num r (inl on) lo hi =
    let k = num - 1 in
    let r' : Gpm4 = record r { dat = clear_bit r.dat k } in
    let w = clear_bit-Written r.dat k (omega arith) in
    rw on (ledstat-Written r r' k 0 (omega arith) w, w.above, refl)
ledonoff_lem cmd num r (inr off) lo hi =
    let k = num - 1 in
    let r' : Gpm4 = record r { dat = set_bit r.dat k } in
    let w = set_bit-Written r.dat k (omega arith) in
    rw off (ledstat-Written r r' k 1 (omega arith) w, w.above, refl)
