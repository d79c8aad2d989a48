-- ===== src/Kernel/Memory.antt =====
-- Copies between the kernel and the memory of the calling process.
pub mod Simple
use kernel_code.Prelude.{ℕ, ◌≡◌, List, length, take}

-- `copy_in src n` is `copy_from_user` of `n` bytes, where `src` holds what the process can read from
-- the address on: the number of bytes not copied, and the bytes stored at the destination.
-- `copy_out room bytes` is `copy_to_user`, where the process can write `room` bytes: the number of
-- bytes not copied, and what the process finds in its buffer.
pub record UserAccess : Type 0 where
  pub copy_in : List ℕ → ℕ → ℕ × List ℕ
  pub copy_out : ℕ → List ℕ → ℕ × List ℕ
  -- Exactly `n` bytes of the destination are written, also where the copy fails.
  pub in_length : (src : List ℕ) (n : ℕ) → length (copy_in src n).1 ≡ n
  -- 0 is returned if all was copied.
  pub in_all : (src : List ℕ) (n : ℕ) → (copy_in src n).0 ≡ 0 → (copy_in src n).1 ≡ take n src
  pub out_all : (room : ℕ) (bs : List ℕ) → (copy_out room bs).0 ≡ 0 → (copy_out room bs).1 ≡ bs
