-- ===== src/Spin/Groups.antt =====
-- The specification of the drivers with a spin lock: the lines of each string stand together, numbered in turn.
use kernel_code.Prelude.{
  ℕ, zero, suc, ◌+◌, ◌%◌, ◌^◌, ◌≡◌, refl, sym, ap, ◌∙◌, List, [], ◌∷◌, ◌++◌, append-nil,
  append_assoc, replicate,
}
use kernel_code.Spin.{Text}

-- The strings as they stand in the lines: each of them `cnt` times.
abbrev pub repeated : (cnt : ℕ) → List Text → List Text
repeated cnt [] = []
repeated cnt (str ∷ strs) = replicate cnt str ++ repeated cnt strs

-- The lines, numbered from `g` on with 32 bits.
abbrev pub numbered : (g : ℕ) → List Text → List (ℕ × Text)
numbered g [] = []
numbered g (str ∷ strs) = (g, str) ∷ numbered ((g + 1) % 2 ^ 32) strs

-- The number after that of the last line.
abbrev pub number_after : (g : ℕ) → List Text → ℕ
number_after g [] = g
number_after g (str ∷ strs) = number_after ((g + 1) % 2 ^ 32) strs

pub repeated-append :
    (cnt : ℕ) (strs : List Text) (str : Text)
    → repeated cnt (strs ++ str ∷ []) ≡ repeated cnt strs ++ replicate cnt str
repeated-append cnt [] str = append-nil (replicate cnt str)
repeated-append cnt (s ∷ strs) str =
    ap (λ l. replicate cnt s ++ l) (repeated-append cnt strs str)
    ∙ sym (append_assoc (replicate cnt s) (repeated cnt strs) (replicate cnt str))

pub numbered-append :
    (g : ℕ) (strs : List Text) (str : Text)
    → numbered g (strs ++ str ∷ []) ≡ numbered g strs ++ (number_after g strs, str) ∷ []
numbered-append g [] str = refl
numbered-append g (s ∷ strs) str =
    ap (λ l. (g, s) ∷ l) (numbered-append ((g + 1) % 2 ^ 32) strs str)

pub number_after-append :
    (g : ℕ) (strs : List Text) (str : Text)
    → number_after g (strs ++ str ∷ []) ≡ (number_after g strs + 1) % 2 ^ 32
number_after-append g [] str = refl
number_after-append g (s ∷ strs) str = number_after-append ((g + 1) % 2 ^ 32) strs str

replicate-snoc : (n : ℕ) (str : Text) → replicate (suc n) str ≡ replicate n str ++ str ∷ []
replicate-snoc zero str = refl
replicate-snoc (suc n) str = ap (λ l. str ∷ l) (replicate-snoc n str)

-- One more line of a string that is being printed.
pub one_more_line :
    (done : List Text) (n : ℕ) (str : Text)
    → done ++ replicate (suc n) str ≡ (done ++ replicate n str) ++ str ∷ []
one_more_line done n str =
    ap (λ l. done ++ l) (replicate-snoc n str)
    ∙ sym (append_assoc done (replicate n str) (str ∷ []))
