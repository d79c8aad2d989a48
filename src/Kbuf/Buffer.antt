-- ===== src/Kbuf/Buffer.antt =====
-- `struct kbuf` of the kbuf drivers: 512 bytes of storage, of which the first `validlen` hold data,
-- and the accesses to it that the drivers share. `size_t` has 32 bits on the board.
pub mod Laws
use kernel_code.Prelude.{
  ℕ, ◌+◌, ◌-◌, ◌%◌, ◌^◌, ◌≤◌, ◌≡◌, Bool, not, List, ◌++◌, ◌==◌, length, take, drop, replicate,
}

-- Bytes are only moved, never computed with, so a byte is any number.
pub record Buffer : Type 0 where
  pub mem : List ℕ
  pub validlen : ℕ

abbrev pub sz_512 : ℕ
sz_512 = 512

abbrev pub add_size : ℕ → ℕ → ℕ
add_size a b = (a + b) % 2 ^ 32

-- `-` on ℕ stops at 0, so the modulus is added first.
abbrev pub sub_size : ℕ → ℕ → ℕ
sub_size a b = (a + 2 ^ 32 - b) % 2 ^ 32

-- The `n` bytes from `off` on.
abbrev pub slice : List ℕ → ℕ → ℕ → List ℕ
slice mem off n = take n (drop off mem)

-- A store of `bs` from `off` on. One that runs past the end makes the list longer.
abbrev pub overwrite : List ℕ → ℕ → List ℕ → List ℕ
overwrite mem off bs = take off mem ++ (bs ++ drop (off + length bs) mem)

-- `memmove(kbuf, kbuf+cnt, validlen - cnt)`
unfoldable pub shift_down : ℕ → Buffer → Buffer
shift_down cnt b = record b { mem = overwrite b.mem 0 (slice b.mem cnt (sub_size b.validlen cnt)) }

-- `validlen -= cnt`
unfoldable pub shrink : ℕ → Buffer → Buffer
shrink cnt b = record b { validlen = sub_size b.validlen cnt }

-- The store of `copy_from_user` to `kbuf + validlen`.
unfoldable pub store_tail : List ℕ → Buffer → Buffer
store_tail bs b = record b { mem = overwrite b.mem b.validlen bs }

-- `validlen += cnt`
unfoldable pub grow : ℕ → Buffer → Buffer
grow cnt b = record b { validlen = add_size b.validlen cnt }

-- `pdev->validlen != 0` and `pdev->validlen != SZ_512`
abbrev pub has_data : Buffer → Bool
has_data b = not (b.validlen == 0)

abbrev pub has_space : Buffer → Bool
has_space b = not (b.validlen == sz_512)

-- `kzalloc(SZ_512)`
abbrev pub empty_buffer : Buffer
empty_buffer = record { mem = replicate 512 0; validlen = 0 }

-- Storage of 512 bytes, and no more data than fits.
pub record IsValid (b : Buffer) : Type 0 where
  pub storage : length b.mem ≡ sz_512
  pub fits : b.validlen ≤ sz_512

-- The data, oldest byte first.
abbrev pub contents : Buffer → List ℕ
contents b = take b.validlen b.mem
