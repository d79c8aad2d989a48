-- ===== src/Kernel/Memory/Simple.antt =====
-- User memory of which a number of bytes is mapped: a copy moves bytes up to the first that is not,
-- and `copy_from_user` then fills the destination with zeros. It meets the laws of `UserAccess`.
use kernel_code.Prelude.{
  ℕ, zero, suc, ◌-◌, ◌≡◌, refl, ap, List, [], ◌∷◌, ◌++◌, arith, length, take, replicate,
  length-append, length-take, length-replicate, append-nil,
}
use kernel_code.Kernel.Memory.{UserAccess}

abbrev filled : List ℕ → ℕ → List ℕ
filled src n = take n src ++ replicate (n - length src) 0

pub length-filled : (src : List ℕ) (n : ℕ) → length (filled src n) ≡ n
length-filled src n = omega (
  arith,
  length-append (take n src) (replicate (n - length src) 0),
  length-take n src,
  length-replicate {A = ℕ} (n - length src) 0,
)

pub filled_all : (src : List ℕ) (n : ℕ) → n - length src ≡ 0 → filled src n ≡ take n src
filled_all src n h = rw h (append-nil (take n src))

pub take_all : (room : ℕ) (bs : List ℕ) → length bs - room ≡ 0 → take room bs ≡ bs
take_all zero [] h = refl
take_all zero (b ∷ bs) h = absurd (omega arith)
take_all (suc room) [] h = refl
take_all (suc room) (b ∷ bs) h = ap (λ t. b ∷ t) (take_all room bs (omega arith))

abbrev pub mapped : UserAccess
mapped = record {
  copy_in = λ src n. (n - length src, filled src n);
  copy_out = λ room bs. (length bs - room, take room bs);
  in_length = length-filled;
  in_all = filled_all;
  out_all = take_all;
}
