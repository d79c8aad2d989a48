-- ===== src/App/Keys.antt =====
-- keys/app/app.c: a program that reads the keys and prints which of them changed, together with keys/key.c.
mod Tests
use kernel_code.Prelude.{
  ℕ, zero, suc, ◌+◌, ◌<◌, ◌%◌, ◌^◌, ◌≡◌, refl, ap, ◌∙◌, Bool, true, false, not, Option, none, some,
  List, [], ◌∷◌, ◌++◌, pos, negsuc, arith, ◌==◌, if◌then◌else◌,
}
use kernel_code.Kernel.Memory.{UserAccess}
use kernel_code.Kbuf.Script.{Reply, reply}
use kernel_code.Irq.Keys.{State, parity, set_at, key_read}
use kernel_code.Irq.Keys.Debounce.{
  interrupts, quiet, last_key_counts, read_after_burst, Reach, kbuf-parity,
}

-- The lines of one round of the loop from key `i` on: the number of a key and whether it is down.
unfoldable pub changes : (i : ℕ) → (oldbuf buf : List ℕ) → List (ℕ × Bool)
changes i [] bs = []
changes i (o ∷ os) [] = []
changes i (o ∷ os) (b ∷ bs) =
    let rest = changes (i + 1) os bs in if o == b then rest else (i + 1, not (b == 0)) ∷ rest

-- The lines of one round and the new `oldbuf`, or the end of the program where `read` does not return 4.
unfoldable pub show : (oldbuf : List ℕ) → Reply → Option (List (ℕ × Bool) × List ℕ)
show oldbuf r = elim r.ret [
  | pos n ↦ if n == 4 then some (changes 0 oldbuf r.out, r.out) else none
  | negsuc e ↦ none
]

-- One round of `while (1)`
unfoldable pub round :
    UserAccess
    → (wait : State → State) → (oldbuf : List ℕ) → State
    → Option (List (ℕ × Bool) × List ℕ) × State
round user wait oldbuf s = let (r, t) = key_read user wait 4 4 s in (show oldbuf r, t)

-- The states of the four keys.
abbrev pub states : (ℕ → ℕ) → List ℕ
states kbuf = kbuf 0 ∷ kbuf 1 ∷ kbuf 2 ∷ kbuf 3 ∷ []

parity_changes : (n : ℕ) → (parity n == parity ((n + 1) % 2 ^ 32)) ≡ false
parity_changes n = ground arith

parity_down : (n : ℕ) → not (parity n == 0) ≡ (n % 2 == 1)
parity_down n = ground arith

self : (a : ℕ) → (a == a) ≡ true
self a = ground arith

changes-one :
    (kbuf : ℕ → ℕ) (k v : ℕ)
    → k < 4
    → (kbuf k == v) ≡ false
    → changes 0 (states kbuf) (states (set_at kbuf k v)) ≡ (k + 1, not (v == 0)) ∷ []
unfolding changes
changes-one kbuf zero v small differs =
    rw (differs, self (kbuf 1), self (kbuf 2), self (kbuf 3)) refl
changes-one kbuf (suc zero) v small differs =
    rw (differs, self (kbuf 0), self (kbuf 2), self (kbuf 3)) refl
changes-one kbuf (suc (suc zero)) v small differs =
    rw (differs, self (kbuf 0), self (kbuf 1), self (kbuf 3)) refl
changes-one kbuf (suc (suc (suc zero))) v small differs =
    rw (differs, self (kbuf 0), self (kbuf 1), self (kbuf 2)) refl
changes-one kbuf (suc (suc (suc (suc k)))) v small differs = absurd (omega (arith, small))

module _ (user : UserAccess) where
  -- The program and the driver together: the program has shown the states of the keys; then keys
  -- interrupt, the last of them key `k`, and the read of the program wakes and can be copied. The program
  -- prints one line, that key `k + 1` is down or up by its count, and has again shown all states.
  pub one_line_per_press :
      (devs : List ℕ) (k : ℕ) {s : State}
      → Reach user s
      → k < 4
      → let moved = (s.cnt k + 1) % 2 ^ 32 in
        let bytes = states (set_at s.kbuf k (parity moved)) in
        (user.copy_out 4 bytes).0 ≡ 0
        → let (r, t) = round user (λ v. quiet (interrupts (devs ++ k ∷ []) v)) (states s.kbuf) s in
          r ≡ some ((k + 1, moved % 2 == 1) ∷ [], bytes)
  unfolding round show
  one_line_per_press devs k {s} path small ok =
      let moved = (s.cnt k + 1) % 2 ^ 32 in
      let (reply_eq, flag) = read_after_burst user devs k 4 s ok in
      let differs : (s.kbuf k == parity moved) ≡ false =
        rw (kbuf-parity user path k) (parity_changes (s.cnt k)) in
      let lines = changes-one s.kbuf k (parity moved) small differs in
      ap (show (states s.kbuf)) reply_eq
      ∙ ap (λ l. some (l, states (set_at s.kbuf k (parity moved)))) lines
      ∙ ap (λ b. some ((k + 1, b) ∷ [], states (set_at s.kbuf k (parity moved))))
          (parity_down moved)
