-- ===== src/Irq/Older/Laws.antt =====
-- What the older drivers of the keys show and hold.
use kernel_code.Prelude.{
  ℕ, ◌+◌, ◌≤◌, ◌<◌, ◌%◌, ◌^◌, ◌≡◌, refl, ap, ◌∙◌, true, ◌&&◌, List, [], ◌∷◌, pos, length,
  is_negative, arith, ◌==◌, if◌then◌else◌,
}
use kernel_code.Kernel.Errno.{is_done}
use kernel_code.Kernel.World.{resource, misc, World, acquire, release-acquire}
use kernel_code.Kernel.Device.{Env}
use kernel_code.Kernel.Memory.{UserAccess}
use kernel_code.Kernel.Unwind.{unwind}
use kernel_code.Kbuf.Script.{reply}
use kernel_code.Irq.{request_irq_key}
use kernel_code.Irq.Request.{
  with_irqs, irqs_granted, irq_error, request_irq_key_lem, remove_irq-take,
}
use kernel_code.Irq.Keys.Setup.{irq_error-negative}
use kernel_code.Irq.Older.{
  Keys, start, digit, do_timer, key_read, register_4keys, unregister_4keys, init, exit,
}

pub register_4keys_lem :
    (env : Env) (w : World)
    → register_4keys env w ≡ (if irqs_granted env then (pos 0, with_irqs w) else (irq_error env, w))
unfolding register_4keys request_irq_key
register_4keys_lem env w = request_irq_key_lem env w

pub unregister_4keys_lem : (w : World) → unregister_4keys (with_irqs w) ≡ w
unfolding unregister_4keys unwind
unregister_4keys_lem w = simp remove_irq-take

-- `demo_init` of the keys returns 0, and `demo_exit` then gives back all that it took; or it
-- returns a negative error and holds nothing more than before.
pub init-exit_older_keys :
    (env : Env) (w : World)
    → let (ret, w') = init env w in
      if is_done (env (resource misc 0)) && irqs_granted env
      then (ret ≡ pos 0) × (exit w' ≡ w)
      else (is_negative ret ≡ true) × (w' ≡ w)
unfolding init exit
init-exit_older_keys env w = ground (
  arith,
  release-acquire (resource misc 0) w,
  register_4keys_lem env (acquire (resource misc 0) w),
  unregister_4keys_lem (acquire (resource misc 0) w),
  irq_error-negative env,
)

-- A key is handled, or a process reads.
pub data Action : Type 0 where
  key : ℕ → Action
  read : (room cnt : ℕ) → Action

module _ (user : UserAccess) where
  abbrev act : Action → Keys → Keys
  act (key k) s = do_timer k s
  act (read room cnt) s = (key_read user (λ v. v) room cnt s).1

  abbrev pub run : List Action → Keys → Keys
  run [] s = s
  run (a ∷ rest) s = run rest (act a s)

-- How often key `i` was handled.
abbrev pub presses : ℕ → List Action → ℕ
presses i [] = 0
presses i (key k ∷ rest) = if k == i then presses i rest + 1 else presses i rest
presses i (read room cnt ∷ rest) = presses i rest

presses-bound : (i : ℕ) (acts : List Action) → presses i acts ≤ length acts
presses-bound i [] = ground arith
presses-bound i (key k ∷ rest) = ground (arith, presses-bound i rest)
presses-bound i (read room cnt ∷ rest) = ground (arith, presses-bound i rest)

-- Each character shows its count, which is what the key was handled before and since.
record Counts (before : ℕ → ℕ) (s : Keys) : Type 0 where
  counted : (i : ℕ) → s.cnt i ≡ before i
  digits : (i : ℕ) → s.kbuf i ≡ digit (before i)

module _ (user : UserAccess) where
  read-keeps :
      (room cnt : ℕ) (s : Keys)
      → let t = (key_read user (λ v. v) room cnt s).1 in (t.cnt ≡ s.cnt) × (t.kbuf ≡ s.kbuf)
  unfolding key_read
  read-keeps room cnt s = ground arith

  run-Counts :
      (acts : List Action) (before : ℕ → ℕ) (s : Keys)
      → Counts before s
      → ((i : ℕ) → before i + presses i acts < 2 ^ 31)
      → Counts (λ i. before i + presses i acts) (run user acts s)
  unfolding do_timer
  run-Counts [] before s v small = record {
    counted = λ i. ground (arith, v.counted i);
    digits = λ i. ground (arith, v.digits i);
  }
  run-Counts (key k ∷ rest) before s v small =
      let after : ℕ → ℕ = λ i. if k == i then before i + 1 else before i in
      let w : Counts after (do_timer k s) = record {
        counted = λ i. ground (arith, v.counted i, v.counted k, small i);
        digits = λ i. ground (arith, v.counted k, v.digits i, small i);
      } in
      let u = run-Counts rest after (do_timer k s) w (λ i. ground (arith, small i)) in
      record {
        counted = λ i. ground (arith, u.counted i);
        digits = λ i. ground (arith, u.digits i);
      }
  run-Counts (read room cnt ∷ rest) before s v small =
      let (same_cnt, same_kbuf) = read-keeps room cnt s in
      run-Counts rest before (key_read user (λ v. v) room cnt s).1
        (record {
          counted = λ i. ap (λ f. f i) same_cnt ∙ v.counted i;
          digits = λ i. ap (λ f. f i) same_kbuf ∙ v.digits i;
        })
        small

  -- After keys that were handled and reads, fewer than 2^31 in all, a read of 4 bytes that can be
  -- copied returns 4 with a `1` for each key that was handled an odd number of times, a `0` for each
  -- other, and clears the flag.
  pub read_shows_parities :
      (acts : List Action) (room : ℕ)
      → length acts < 2 ^ 31
      → let shown : ℕ → ℕ = λ i. 48 + presses i acts % 2 in
        let bytes = shown 0 ∷ shown 1 ∷ shown 2 ∷ shown 3 ∷ [] in
        (user.copy_out room bytes).0 ≡ 0
        → let (r, t) = key_read user (λ v. v) room 4 (run user acts start) in
          (r ≡ reply (pos 4) bytes) × (t.dnup_flg ≡ 0)
  unfolding key_read
  read_shows_parities acts room small ok =
      let v =
        run-Counts acts (λ i. 0) start (record { counted = λ i. refl; digits = λ i. refl })
          (λ i. ground (arith, presses-bound i acts)) in
      let shown : (i : ℕ) → (run user acts start).kbuf i ≡ 48 + presses i acts % 2 =
        λ i. ground (arith, v.digits i, presses-bound i acts) in
      rw (shown 0, shown 1, shown 2, shown 3)
        (let bytes =
            (48 + presses 0 acts % 2)
            ∷ (48 + presses 1 acts % 2)
            ∷ (48 + presses 2 acts % 2)
            ∷ (48 + presses 3 acts % 2)
            ∷ [] in
          ground (arith, ok, user.out_all room bytes))
