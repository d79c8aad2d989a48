-- ===== src/Kbuf/Buffer/Laws.antt =====
-- How the shared accesses change a valid buffer and its contents.
use kernel_code.Prelude.{
  ℕ, zero, suc, ◌+◌, ◌-◌, ◌≤◌, ◌≡◌, refl, ap, sym, ◌∙◌, List, [], ◌∷◌, ◌++◌, arith, length, take,
  drop, length-append, length-take, length-drop, append_assoc,
}
use kernel_code.Kbuf.Buffer.{
  Buffer, IsValid, contents, sz_512, slice, overwrite, sub_size, add_size, shift_down, shrink,
  store_tail, grow,
}

module _ {ℓ} {A : Type ℓ} where
  pub take-nil : (n : ℕ) → take {A = A} n [] ≡ []
  take-nil zero = refl
  take-nil (suc n) = refl

  pub take-append_of_length : (n : ℕ) (xs ys : List A) → length xs ≡ n → take n (xs ++ ys) ≡ xs
  take-append_of_length zero [] ys h = refl
  take-append_of_length zero (x ∷ xs) ys h = absurd (omega arith)
  take-append_of_length (suc n) [] ys h = absurd (omega arith)
  take-append_of_length (suc n) (x ∷ xs) ys h =
      ap (λ t. x ∷ t) (take-append_of_length n xs ys (omega arith))

  pub drop-take : (n k : ℕ) (xs : List A) → drop n (take (n + k) xs) ≡ take k (drop n xs)
  drop-take zero k xs = ap (λ j. take j xs) (omega arith)
  drop-take (suc n) k [] = let e : suc n + k ≡ suc (n + k) = omega arith in rw e (sym (take-nil k))
  drop-take (suc n) k (x ∷ xs) =
      let e : suc n + k ≡ suc (n + k) = omega arith in rw e (drop-take n k xs)

  pub take-take_le : (n k : ℕ) (xs : List A) → n ≤ k → take n (take k xs) ≡ take n xs
  take-take_le zero k xs h = refl
  take-take_le (suc n) zero xs h = absurd (omega arith)
  take-take_le (suc n) (suc k) [] h = refl
  take-take_le (suc n) (suc k) (x ∷ xs) h = ap (λ t. x ∷ t) (take-take_le n k xs (omega arith))

-- A store inside the storage keeps its size.
pub length-overwrite :
    (mem : List ℕ) (off : ℕ) (bs : List ℕ)
    → off + length bs ≤ length mem
    → length (overwrite mem off bs) ≡ length mem
length-overwrite mem off bs h = omega (
  arith,
  length-append (take off mem) (bs ++ drop (off + length bs) mem),
  length-append bs (drop (off + length bs) mem),
  length-take off mem,
  length-drop (off + length bs) mem,
)

pub length-slice : (mem : List ℕ) (off n : ℕ) → off + n ≤ length mem → length (slice mem off n) ≡ n
length-slice mem off n h = omega (arith, length-take n (drop off mem), length-drop off mem)

module _ (b : Buffer) (v : IsValid b) where
  pub length-contents : length (contents b) ≡ b.validlen
  length-contents = omega (arith, length-take b.validlen b.mem)

  -- What `copy_to_user(buf, kbuf, cnt)` is given is the oldest data.
  pub slice-contents : (n : ℕ) → n ≤ b.validlen → slice b.mem 0 n ≡ take n (contents b)
  slice-contents n h = sym (take-take_le n b.validlen b.mem h)

  module _ (n : ℕ) (h : n ≤ b.validlen) where
    no_wrap : sub_size b.validlen n ≡ b.validlen - n
    no_wrap = omega arith

    abbrev rest : List ℕ
    rest = slice b.mem n (b.validlen - n)

    length-rest : length rest ≡ b.validlen - n
    length-rest = length-slice b.mem n (b.validlen - n) (omega arith)

    -- Neither the move nor the subtraction leaves the storage, and the oldest `n` bytes are gone.
    pub shrink-shift_down-IsValid : IsValid (shrink n (shift_down n b))
    unfolding shrink shift_down
    shrink-shift_down-IsValid = record {
      storage = rw no_wrap (length-overwrite b.mem 0 rest (omega (arith, length-rest)) ∙ v.storage);
      fits = omega arith;
    }

    pub contents-shrink-shift_down : contents (shrink n (shift_down n b)) ≡ drop n (contents b)
    unfolding shrink shift_down
    contents-shrink-shift_down =
        rw no_wrap (take-append_of_length (b.validlen - n) _ _ length-rest ∙ shifted)
      where
        whole : n + (b.validlen - n) ≡ b.validlen
        whole = omega arith

        shifted : slice b.mem n (b.validlen - n) ≡ drop n (contents b)
        shifted = sym (drop-take n (b.validlen - n) b.mem) ∙ ap (λ k. drop n (take k b.mem)) whole

  module _ (bs : List ℕ) (h : b.validlen + length bs ≤ sz_512) where
    -- A store behind the data stays in the storage and leaves the data alone.
    pub store_tail-IsValid : IsValid (store_tail bs b)
    unfolding store_tail
    store_tail-IsValid = record {
      storage = length-overwrite b.mem b.validlen bs (omega arith) ∙ v.storage;
      fits = v.fits;
    }

    pub contents-store_tail : contents (store_tail bs b) ≡ contents b
    unfolding store_tail
    contents-store_tail = take-append_of_length b.validlen _ _ length-contents

    pub grow-store_tail-IsValid : IsValid (grow (length bs) (store_tail bs b))
    unfolding grow store_tail
    grow-store_tail-IsValid = record { storage = store_tail-IsValid.storage; fits = omega arith }

    -- The bytes are appended to the data.
    pub contents-grow-store_tail : contents (grow (length bs) (store_tail bs b)) ≡ contents b ++ bs
    unfolding grow store_tail
    contents-grow-store_tail = rw sum (
        rw (← append_assoc (contents b) bs _)
          (take-append_of_length (b.validlen + length bs) _ _ both))
      where
        sum : add_size b.validlen (length bs) ≡ b.validlen + length bs
        sum = omega arith

        both : length (contents b ++ bs) ≡ b.validlen + length bs
        both = omega (arith, length-append (contents b) bs, length-contents)
