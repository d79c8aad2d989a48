-- ===== src/Leds/Misc/Laws.antt =====
-- What a process sees of the LEDs, and which resources the driver holds.
use kernel_code.Prelude.{
  ℕ, ◌-◌, ◌/◌, ◌%◌, ◌^◌, ◌≤◌, ◌≡◌, ◌⊎◌, refl, List, [], ◌∷◌, pos, set, arith, true,
}
use kernel_code.Kernel.Errno.{done, failed, is_done, einval, eio}
use kernel_code.Kernel.World.{
  resource, misc, mapping, proc_entry, World, nothing_held, acquire, release, release-acquire,
  World-eq,
}
use kernel_code.Kernel.Device.{Env}
use kernel_code.Kernel.Memory.{UserAccess}
use kernel_code.Kbuf.Script.{reply}
use kernel_code.Leds.Register.{Gpm4, bit, led_on, led_off, ledstat, all_off}
use kernel_code.Leds.Register.Bits.{ledonoff_lem}
use kernel_code.Leds.Misc.{read, write, set_up, init, exit}

-- A request that the driver accepts: on or off, for one of the LEDs 1 to 4.
abbrev pub IsCommand : (cmd num : ℕ) → Type 0
IsCommand cmd num = ((cmd ≡ led_on) ⊎ (cmd ≡ led_off)) × (1 ≤ num) × (num ≤ 4)

module _ (user : UserAccess) (r : Gpm4) where
  -- A command for LED `num` that can be copied returns 2; a read of the states that can be copied then
  -- finds the one of that LED changed, and the others as before.
  pub read-write :
      (cmd num room : ℕ)
      → IsCommand cmd num
      → (user.copy_in (cmd ∷ num ∷ []) 2).0 ≡ 0
      → (user.copy_out room (set (ledstat r) (num - 1) cmd)).0 ≡ 0
      → let (ret, r') = write user (cmd ∷ num ∷ []) 2 r in
        (ret ≡ pos 2) × (read user room 4 r' ≡ reply (pos 4) (set (ledstat r) (num - 1) cmd))
  unfolding read write
  read-write cmd num room (c, lo, hi) ok ok' =
      let taken = user.in_all (cmd ∷ num ∷ []) 2 ok in
      let (states, above, con) = ledonoff_lem cmd num r c lo hi in
      ground (arith, taken, states, user.out_all room (set (ledstat r) (num - 1) cmd))

  -- A write returns 2, -EINVAL or -EIO, and in the last two cases changes no register.
  pub write_outcomes :
      (src : List ℕ) (cnt : ℕ)
      → let (ret, r') = write user src cnt r in
        (ret ≡ pos 2) ⊎ (((ret ≡ einval) ⊎ (ret ≡ eio)) × (r' ≡ r))
  unfolding write
  write_outcomes src cnt = ground arith

-- After the set-up all four LEDs are off, and their pins are outputs.
pub set_up_lem :
    (r : Gpm4)
    → let r' = set_up r in
      (ledstat r' ≡ led_off ∷ led_off ∷ led_off ∷ led_off ∷ [])
      × (r'.con % 2 ^ 16 ≡ 0x1111)
      × (r'.dat / 16 ≡ r.dat / 16)
unfolding set_up ledstat bit
set_up_lem r = ground arith

all_off_lem :
    (r : Gpm4)
    → ledstat (record r { dat = all_off r.dat }) ≡ led_off ∷ led_off ∷ led_off ∷ led_off ∷ []
unfolding ledstat bit
all_off_lem r = ground arith

abbrev loaded : World → World
loaded w =
    acquire (resource misc 0) (acquire (resource proc_entry 0) (acquire (resource mapping 0) w))

last_first :
    (w : World)
    → loaded w
      ≡ acquire (resource mapping 0) (acquire (resource proc_entry 0) (acquire (resource misc 0) w))
unfolding acquire
last_first w = World-eq (λ r. omega arith) refl

init-granted :
    (env : Env) (w : World) (r : Gpm4)
    → is_done (env (resource mapping 0)) ≡ true
    → is_done (env (resource proc_entry 0)) ≡ true
    → is_done (env (resource misc 0)) ≡ true
    → init env w r ≡ (pos 0, loaded w, set_up r)
unfolding init
init-granted env w r a b c = ground arith

exit-loaded : (w : World) (r : Gpm4) → (exit (loaded w) r).0 ≡ w
unfolding exit
exit-loaded w r = rw last_first (simp release-acquire)

exit-off :
    (w : World) (r : Gpm4) → ledstat (exit w r).1 ≡ led_off ∷ led_off ∷ led_off ∷ led_off ∷ []
unfolding exit
exit-off w r = all_off_lem r

-- With all requests granted, `demo_exit` gives back what `demo_init` took, and puts the LEDs off.
pub exit-init :
    (env : Env) (w : World) (r : Gpm4)
    → is_done (env (resource mapping 0)) ≡ true
    → is_done (env (resource proc_entry 0)) ≡ true
    → is_done (env (resource misc 0)) ≡ true
    → let (ret, w', r') = init env w r in
      (ret ≡ pos 0)
      × ((exit w' r').0 ≡ w)
      × (ledstat (exit w' r').1 ≡ led_off ∷ led_off ∷ led_off ∷ led_off ∷ [])
exit-init env w r a b c =
    rw (init-granted env w r a b c) (refl, exit-loaded w (set_up r), exit-off (loaded w) (set_up r))

-- Where only the entry under /proc is refused, `demo_init` returns 0 and the device is registered,
-- though the registers that its functions use are no longer mapped; `demo_exit` then unmaps them a
-- second time, and removes an entry that is not there.
pub init_without_proc :
    (env : Env) (r : Gpm4) (e : ℕ)
    → env (resource mapping 0) ≡ done
    → env (resource proc_entry 0) ≡ failed e
    → env (resource misc 0) ≡ done
    → let (ret, w, r') = init env nothing_held r in
      (ret ≡ pos 0)
      × (w.held (resource misc 0) ≡ 1)
      × (w.held (resource mapping 0) ≡ 0)
      × ((exit w r').0.faults ≡ 2)
unfolding init exit acquire release
init_without_proc env r e a b c = ground arith
