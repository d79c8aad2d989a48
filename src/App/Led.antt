-- ===== src/App/Led.antt =====
-- miscled/app/led.c: a program that switches the LEDs and shows their states, together with miscled/led.c.
mod Tests
use kernel_code.Prelude.{
  ℕ, ◌-◌, ◌%◌, ◌^◌, ◌≤◌, ◌≡◌, refl, sym, ap, ◌∙◌, Bool, true, false, inl, inr, List, [], ◌∷◌, map,
  set, ℤ, pos, negsuc, arith, ◌==◌, if◌then◌else◌,
}
use kernel_code.Kernel.Memory.{UserAccess}
use kernel_code.Kbuf.Script.{Reply}
use kernel_code.DriverModel.{same_start}
use kernel_code.Leds.Register.{Gpm4, led_on, led_off, ledstat}
use kernel_code.Leds.Misc.{read, write}
use kernel_code.Leds.Misc.Laws.{read-write}

-- How the program ends: it prints how to use it, an `assert` fails, it prints for each LED whether it is
-- on, or it prints nothing.
pub data End : Type 0 where
  usage aborted quiet : End
  states : List Bool → End

-- "state", "on" and "off"
abbrev pub state_word : List ℕ
state_word = 115 ∷ 116 ∷ 97 ∷ 116 ∷ 101 ∷ []

abbrev pub on_word : List ℕ
on_word = 111 ∷ 110 ∷ []

abbrev pub off_word : List ℕ
off_word = 111 ∷ 102 ∷ 102 ∷ []

abbrev pub is_on : ℕ → Bool
is_on b = b == led_on

-- What the program does with the answer to its `read`, and to its `write`.
abbrev pub after_read : Reply → End
after_read r = elim r.ret [
  | pos n ↦ if n == 4 then states (map is_on r.out) else aborted
  | negsuc e ↦ aborted
]

abbrev pub after_write : ℤ → End
after_write ret = elim ret [ pos n ↦ if n == 2 then quiet else aborted | negsuc e ↦ aborted ]

module _ (user : UserAccess) where
  -- `main` with three arguments: the last is `argv[2]`.
  unfoldable pub main_state : (arg : List ℕ) → Gpm4 → End
  main_state arg r = if same_start state_word arg 5 then after_read (read user 4 4 r) else usage

  abbrev pub send : (cmd num : ℕ) → Gpm4 → End × Gpm4
  send cmd num r = let (ret, r') = write user (cmd ∷ num ∷ []) 2 r in (after_write ret, r')

  -- `main` with four arguments: `argv[2]`, and what `atoi` makes of `argv[3]` as a `char`.
  unfoldable pub main_switch : (arg : List ℕ) (num : ℕ) → Gpm4 → End × Gpm4
  main_switch arg num r =
      if same_start on_word arg 2
      then send led_on num r
      else if same_start off_word arg 3
      then send led_off num r
      else (usage, r)

  -- The program and the driver together: `on` or `off` for one of the LEDs 1 to 4, if it can be copied,
  -- ends quietly, and the states that the program then prints have this LED on or off and the others
  -- as before.
  pub switch_shows :
      (on : Bool) (num : ℕ) (r : Gpm4)
      → 1 ≤ num
      → num ≤ 4
      → let cmd = if on then led_on else led_off in
        let after = set (ledstat r) (num - 1) cmd in
        (user.copy_in (cmd ∷ num ∷ []) 2).0 ≡ 0
        → (user.copy_out 4 after).0 ≡ 0
        → let (end, r') = main_switch (if on then on_word else off_word) num r in
          (end ≡ quiet) × (main_state state_word r' ≡ states (map is_on after))
  unfolding main_switch main_state same_start
  switch_shows true num r lo hi ok ok' =
      let (sent, shown) = read-write user r led_on num 4 (inl refl, lo, hi) ok ok' in
      (ap after_write sent, ap after_read shown)
  switch_shows false num r lo hi ok ok' =
      let (sent, shown) = read-write user r led_off num 4 (inr refl, lo, hi) ok ok' in
      (ap after_write sent, ap after_read shown)
