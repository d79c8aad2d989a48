-- ===== src/App/Sysled.antt =====
-- app/sysled.c: a program that switches the LEDs and shows their states through the system call of
-- ledsyscall.c, together with it.
use kernel_code.Prelude.{
  ℕ, ◌-◌, ◌≤◌, ◌≡◌, refl, ap, Bool, true, false, inl, inr, List, map, set, ℤ, pos, negsuc, ◌==◌,
  if◌then◌else◌,
}
use kernel_code.Kernel.Memory.{UserAccess}
use kernel_code.Kbuf.Script.{Reply}
use kernel_code.DriverModel.{same_start}
use kernel_code.Leds.Register.{Gpm4, led_on, led_off}
use kernel_code.Leds.Register
use kernel_code.Leds.Syscall.{ledctl, led_stat}
use kernel_code.Leds.Syscall.Laws.{ledctl-ledctl}
use kernel_code.App.Led.{End, usage, aborted, quiet, states, state_word, on_word, off_word, is_on}

-- What follows the call: the `assert(ret == 0)`, and what is printed.
abbrev pub after_stat : Reply → End
after_stat r = elim r.ret [
  | pos n ↦ if n == 0 then states (map is_on r.out) else aborted
  | negsuc e ↦ aborted
]

abbrev pub after_switch : ℤ → End
after_switch ret = elim ret [ pos n ↦ if n == 0 then quiet else aborted | negsuc e ↦ aborted ]

module _ (user : UserAccess) where
  -- `main` with two arguments; `buf` is the address of the buffer, which has room for four bytes.
  unfoldable pub main_state : (arg : List ℕ) (buf : ℤ) → Gpm4 → End
  main_state arg buf r =
      if same_start state_word arg 5
      then after_stat (ledctl user (pos led_stat) buf 4 r).0
      else usage

  -- `main` with three arguments: `argv[1]`, and what `atoi` makes of `argv[2]`. Where `num` is not taken
  -- as an address, nothing is copied.
  unfoldable pub main_switch : (arg : List ℕ) (num : ℤ) → Gpm4 → End × Gpm4
  main_switch arg num r =
      if same_start on_word arg 2
      then (let (ret, r') = ledctl user (pos led_on) num 0 r in (after_switch ret.ret, r'))
      else if same_start off_word arg 3
      then (let (ret, r') = ledctl user (pos led_off) num 0 r in (after_switch ret.ret, r'))
      else (usage, r)

  -- The program and the system call together: `on` or `off` for one of the LEDs 1 to 4 ends quietly, and
  -- the states that the program then prints, if they can be copied, have this LED on or off and the
  -- others as before.
  pub switch_shows_states :
      (on : Bool) (num : ℕ) (buf : ℤ) (r : Gpm4)
      → 1 ≤ num
      → num ≤ 4
      → let cmd = if on then led_on else led_off in
        let after = set (Register.ledstat r) (num - 1) cmd in
        (user.copy_out 4 after).0 ≡ 0
        → let (end, r') = main_switch (if on then on_word else off_word) (pos num) r in
          (end ≡ quiet) × (main_state state_word buf r' ≡ states (map is_on after))
  unfolding main_switch main_state same_start
  switch_shows_states true num buf r lo hi ok =
      let (sent, shown) = ledctl-ledctl user r led_on num 0 4 buf (inl refl, lo, hi) ok in
      (ap (λ a. after_switch a.ret) sent, ap (λ a. after_stat a.0) shown)
  switch_shows_states false num buf r lo hi ok =
      let (sent, shown) = ledctl-ledctl user r led_off num 0 4 buf (inr refl, lo, hi) ok in
      (ap (λ a. after_switch a.ret) sent, ap (λ a. after_stat a.0) shown)
