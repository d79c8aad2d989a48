-- ===== src/App/Kbuf/Tests.antt =====
-- A file of two bytes through a kbuf.
use kernel_code.Prelude.{ℕ, ◌-◌, ◌≤◌, ◌≡◌, refl, some, false, List, [], ◌∷◌, length, arith}
use kernel_code.Kernel.Memory.Simple.{mapped}
use kernel_code.Kbuf.Buffer.{Buffer, empty_buffer, contents, overwrite}
use kernel_code.App.Kbuf.{write_main, read_main, cat_main, text_of}
use kernel_code.App.Kbuf.Laws.{write_read_main, cat_prints_all}

abbrev hi : List ℕ
hi = 104 ∷ 105 ∷ []

write_read_main_example :
    let (w, b') = write_main mapped hi empty_buffer in
    let (r, b'') = read_main mapped b' in (w ≡ some 2) × (r ≡ some (2, hi)) × (contents b'' ≡ [])
unfolding text_of
write_read_main_example =
    write_read_main mapped hi (record { storage = refl; fits = omega arith }) refl (omega arith)
      (omega arith) refl refl refl

abbrev two_bytes : Buffer
two_bytes = record { mem = overwrite empty_buffer.mem 0 hi; validlen = 2 }

fits_64 : (bs : List ℕ) → length bs ≤ 64 → length bs - 64 ≡ 0
fits_64 bs small = omega (arith, small)

cat_prints_all_example :
    let (shown, b') = cat_main mapped 9 two_bytes in
    (shown ≡ some (record { bytes = hi; ended = false })) × (contents b' ≡ [])
cat_prints_all_example =
    cat_prints_all mapped {b = two_bytes} 9 (omega arith)
      (record { storage = refl; fits = omega arith }) fits_64
