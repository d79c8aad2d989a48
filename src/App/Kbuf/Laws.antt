-- ===== src/App/Kbuf/Laws.antt =====
-- What the programs show of a kbuf.
use kernel_code.Prelude.{
  ℕ, zero, suc, ◌-◌, ◌*◌, ◌<◌, ◌≤◌, ◌≡◌, refl, sym, ap, ◌∙◌, min, some, false, inl, inr, ◌⊎◌, List,
  [], ◌++◌, pos, length, take, drop, arith, take-append-drop, take-length, drop-length, not_zero,
  length-take, length-drop,
}
use kernel_code.Kernel.Errno.{eagain}
use kernel_code.Kernel.Memory.{UserAccess}
use kernel_code.Kbuf.Script.{reply}
use kernel_code.Kbuf.Pipe
use kernel_code.Kbuf.Buffer.{Buffer, IsValid, contents}
use kernel_code.Kbuf.Buffer.Laws.{length-contents}
use kernel_code.Kbuf.Nonblocking.{read, write}
use kernel_code.Kbuf.Nonblocking.Refine.{read_refines, read-IsValid, write_refines, write-IsValid}
use kernel_code.App.Kbuf.{
  text_of, after_write, after_read, after_cat_read, print_first, write_main, read_main, cat_main,
}

zero_or_more : (n : ℕ) → (n ≡ 0) ⊎ (0 < n)
zero_or_more zero = inl refl
zero_or_more (suc n) = inr (omega arith)

module _ (user : UserAccess) where
  -- The queue at a write into an empty one, and at a read that takes all of it or its first bytes.
  pipe_write :
      (text : List ℕ)
      → 0 < length text
      → length text ≤ 512
      → (user.copy_in text (length text)).0 ≡ 0
      → Pipe.write user text (length text) [] ≡ (pos (length text), text)
  unfolding Pipe.write
  pipe_write text some_byte small ok =
      let n : min (length text) 512 ≡ length text = omega (arith, small) in
      ground (arith, n, take-length text (length text) (omega arith))

  pub pipe_read :
      (room cnt : ℕ) (q : List ℕ)
      → 0 < length q
      → 0 < cnt
      → (user.copy_out room (take (min cnt (length q)) q)).0 ≡ 0
      → Pipe.read user room cnt q ≡ (
        reply (pos (min cnt (length q))) (take (min cnt (length q)) q),
        drop (min cnt (length q)) q,
      )
  unfolding Pipe.read
  pipe_read room cnt q more asks ok = ground arith

  -- The same of a kbuf whose contents are such a queue.
  write_empty :
      (text : List ℕ) {b : Buffer}
      → IsValid b
      → contents b ≡ []
      → 0 < length text
      → length text ≤ 512
      → (user.copy_in text (length text)).0 ≡ 0
      → let (w, b') = write_main user text b in
        (w ≡ some (length text)) × (contents b' ≡ text) × IsValid b'
  unfolding write_main
  write_empty text {b} v empty some_byte small ok =
      let whole = take-length text 512 small in
      let (w, b') = write user text (length text) b in
      let moved : (w, contents b') ≡ (pos (length text), text) =
        write_refines user v text (length text)
        ∙ ap (Pipe.write user text (length text)) empty
        ∙ pipe_write text some_byte small ok in
      let not_empty = not_zero (length text) some_byte in
      rw (whole, not_empty)
        (
          ap (λ m. after_write m.0) moved,
          ap (λ m. m.1) moved,
          write-IsValid user v text (length text),
        )

  read_some :
      (room cnt : ℕ) {b : Buffer}
      → IsValid b
      → 0 < length (contents b)
      → 0 < cnt
      → let n = min cnt (length (contents b)) in
        (user.copy_out room (take n (contents b))).0 ≡ 0
        → let (r, b') = read user room cnt b in
          (r ≡ reply (pos n) (take n (contents b)))
          × (contents b' ≡ drop n (contents b))
          × IsValid b'
  read_some room cnt {b} v more asks ok =
      let moved = read_refines user v room cnt ∙ pipe_read room cnt (contents b) more asks ok in
      (ap (λ m. m.0) moved, ap (λ m. m.1) moved, read-IsValid user v room cnt)

  read_all :
      (b : Buffer) (text : List ℕ)
      → IsValid b
      → contents b ≡ text
      → 0 < length text
      → length text ≤ 511
      → (user.copy_out 512 text).0 ≡ 0
      → let (r, b') = read_main user b in
        (r ≡ some (length text, text_of text)) × (contents b' ≡ [])
  unfolding read_main
  read_all b text v full some_byte small ok =
      let len : length (contents b) ≡ length text = ap length full in
      let n : min 511 (length (contents b)) ≡ length text = omega (arith, len, small) in
      let part : take (min 511 (length (contents b))) (contents b) ≡ text =
        rw (n, full) (take-length text (length text) (omega arith)) in
      let copied = ap (λ q. (user.copy_out 512 q).0) part ∙ ok in
      let (r, rest, _) = read_some 512 511 v (omega (arith, len, some_byte)) (omega arith) copied in
      let shown : after_read (reply (pos (min 511 (length (contents b)))) text)
          ≡ some (length text, text_of text) =
        rw (n, take-length text (length text) (omega arith)) refl in
      (
        ap after_read r
            ∙ ap (λ t. after_read (reply (pos (min 511 (length (contents b)))) t)) part
            ∙ shown,
        rest ∙ drop-length (contents b) (min 511 (length (contents b))) (omega (arith, len, small)),
      )

  -- A file of 1 to 511 bytes without a 0 is written into an empty kbuf, and both copies succeed:
  -- `write.c` prints its length, `read.c` then prints its length and the whole text, and the kbuf is
  -- empty again.
  pub write_read_main :
      (text : List ℕ) {b : Buffer}
      → IsValid b
      → contents b ≡ []
      → 0 < length text
      → length text ≤ 511
      → text_of text ≡ text
      → (user.copy_in text (length text)).0 ≡ 0
      → (user.copy_out 512 text).0 ≡ 0
      → let (w, b') = write_main user text b in
        let (r, b'') = read_main user b' in
        (w ≡ some (length text)) × (r ≡ some (length text, text)) × (contents b'' ≡ [])
  write_read_main text {b} v empty some_byte small plain ok ok' =
      let (_, b') = write_main user text b in
      let (wrote, full, v') = write_empty text v empty some_byte (omega arith) ok in
      let (r, rest) = read_all b' text v' full some_byte small ok' in
      (wrote, r ∙ ap (λ t. some (length text, t)) plain, rest)

  -- The loop of `cat.c` at what its `read` returns.
  cat_stops :
      (fuel : ℕ) (b : Buffer)
      → read user 64 64 b ≡ (reply eagain [], b)
      → cat_main user (suc fuel) b ≡ (some (record { bytes = []; ended = false }), b)
  unfolding cat_main
  cat_stops fuel b e = ap (after_cat_read (cat_main user fuel (read user 64 64 b).1)) e

  cat_goes_on :
      (fuel : ℕ) (b : Buffer) {n : ℕ} {out : List ℕ}
      → (read user 64 64 b).0 ≡ reply (pos (suc n)) out
      → let (rest, b') = cat_main user fuel (read user 64 64 b).1 in
        cat_main user (suc fuel) b ≡ (print_first (take (suc n) out) rest, b')
  unfolding cat_main
  cat_goes_on fuel b e =
      let b' = (read user 64 64 b).1 in ap (λ r. after_cat_read (cat_main user fuel b') (r, b')) e

  read_nothing : {b : Buffer} → b.validlen ≡ 0 → read user 64 64 b ≡ (reply eagain [], b)
  unfolding read
  read_nothing e = rw e refl

  cat_ends :
      (fuel : ℕ) (b : Buffer)
      → IsValid b
      → b.validlen ≡ 0
      → let (shown, b') = cat_main user (suc fuel) b in
        (shown ≡ some (record { bytes = contents b; ended = false })) × (contents b' ≡ [])
  cat_ends fuel b v none_left =
      let empty : contents b ≡ [] = ap (λ n. take n b.mem) none_left in
      let stops = cat_stops fuel b (read_nothing none_left) in
      (
        ap (λ m. m.0) stops ∙ ap (λ q. some (record { bytes = q; ended = false })) (sym empty),
        ap (λ m. contents m.1) stops ∙ empty,
      )

  cat_rounds :
      (k : ℕ) {b : Buffer}
      → IsValid b
      → b.validlen ≤ 64 * k
      → ((bs : List ℕ) → length bs ≤ 64 → (user.copy_out 64 bs).0 ≡ 0)
      → let (shown, b') = cat_main user (suc k) b in
        (shown ≡ some (record { bytes = contents b; ended = false })) × (contents b' ≡ [])
  cat_rounds zero {b} v enough ok = cat_ends zero b v (omega (arith, enough))
  cat_rounds (suc k) {b} v enough ok = elim (zero_or_more b.validlen) [
    | inl none_left ↦ cat_ends (suc k) b v none_left
    | inr more ↦
        let c = contents b in
        let len = length-contents b v in
        let n : ℕ = min 64 (length c) in
        let copied = ok (take n c) (omega (arith, length-take n c)) in
        let (r, rest, v') = read_some 64 64 v (omega (arith, len, more)) (omega arith) copied in
        let b' = (read user 64 64 b).1 in
        let fewer : b'.validlen ≤ 64 * k =
          omega (arith, length-contents b' v', ap length rest, length-drop n c, len, enough) in
        let (shown, empty) = cat_rounds k v' fewer ok in
        let n_eq : n ≡ suc (n - 1) = omega (arith, len, more) in
        let first : take (suc (n - 1)) (take n c) ≡ take n c =
          take-length (take n c) (suc (n - 1)) (omega (arith, length-take n c, n_eq)) in
        let goes = cat_goes_on (suc k) b (r ∙ ap (λ i. reply (pos i) (take n c)) n_eq) in
        let bytes : take (suc (n - 1)) (take n c) ++ contents b' ≡ c =
          cc (first, rest, take-append-drop n c) in
        (
          ap (λ m. m.0) goes
              ∙ ap (print_first (take (suc (n - 1)) (take n c))) shown
              ∙ ap (λ q. some (record { bytes = q; ended = false })) bytes,
          ap (λ m. contents m.1) goes ∙ empty,
        )
  ]

  -- On a valid kbuf whose bytes can be copied, nine reads are enough for `cat.c`: it prints all bytes
  -- that are in the kbuf and leaves it empty, and then its `assert` fails, since the read of an empty
  -- kbuf returns an error and never 0.
  pub cat_prints_all :
      {b : Buffer} (fuel : ℕ)
      → 9 ≤ fuel
      → IsValid b
      → ((bs : List ℕ) → length bs ≤ 64 → (user.copy_out 64 bs).0 ≡ 0)
      → let (shown, b') = cat_main user fuel b in
        (shown ≡ some (record { bytes = contents b; ended = false })) × (contents b' ≡ [])
  cat_prints_all zero enough v ok = absurd (omega (arith, enough))
  cat_prints_all (suc k) enough v ok = cat_rounds k v (omega (arith, enough, v.fits)) ok
