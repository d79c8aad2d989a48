-- ===== src/Kbuf/Script.antt =====
-- What processes ask of a kbuf, what they see of each call, and which bytes a script of calls moved.
use kernel_code.Prelude.{ℕ, List, [], ◌∷◌, ◌++◌, ℤ, pos, negsuc, take}

-- What a call returns, and for a read the bytes in the buffer of the process.
pub record Reply : Type 0 where
  pub ret : ℤ
  pub out : List ℕ

abbrev pub reply : ℤ → List ℕ → Reply
reply r bs = record { ret = r; out = bs }

-- A read of `cnt` bytes into a buffer that can hold `room`; a write of `cnt` bytes, where `src` is
-- what the process can read at its buffer.
pub data Op : Type 0 where
  get : (room cnt : ℕ) → Op
  put : (src : List ℕ) (cnt : ℕ) → Op

-- The bytes that a successful read handed out.
unfoldable pub delivered : Op → Reply → List ℕ
delivered (get room cnt) r = elim r.ret [ pos n ↦ r.out | negsuc n ↦ [] ]
delivered (put src cnt) r = []

-- The bytes that a successful write took in: as many as it returned.
unfoldable pub accepted : Op → Reply → List ℕ
accepted (get room cnt) r = []
accepted (put src cnt) r = elim r.ret [ pos n ↦ take n src | negsuc n ↦ [] ]

unfoldable pub all_delivered : List Op → List Reply → List ℕ
all_delivered [] rs = []
all_delivered (op ∷ ops) [] = []
all_delivered (op ∷ ops) (r ∷ rs) = delivered op r ++ all_delivered ops rs

unfoldable pub all_accepted : List Op → List Reply → List ℕ
all_accepted [] rs = []
all_accepted (op ∷ ops) [] = []
all_accepted (op ∷ ops) (r ∷ rs) = accepted op r ++ all_accepted ops rs
