-- ===== src/Procfs/Older.antt =====
-- kernel_code_v1/proc/proc.c: an entry under /proc that keeps what is written to it, without a limit. A
-- write that fails gives back what it allocated.
use kernel_code.Prelude.{
  Bool-cases, inl, inr, Option, none, some, ltb, leb, ◌<◌, ℕ, ◌+◌, ◌-◌, ◌≡◌, refl, sym, ap, ◌∙◌,
  List, [], ◌∷◌, ◌++◌, append-nil, append_assoc, ℤ, pos, not, length, length-append, take, arith,
  ◌&&◌, ◌==◌, if◌then◌else◌,
}
use kernel_code.Kernel.Errno.{done, failed, enomem, is_done}
use kernel_code.Kernel.World.{World}
use kernel_code.Kernel.World.{resource, proc_entry, acquire, release}
use kernel_code.Kernel.Device.{Env}
use kernel_code.Kernel.Memory.{UserAccess}
use kernel_code.Procfs.{Call, text, free_all}

-- The bytes of each `struct user_item` up to the 0 behind them, and how many pairs of an item and its
-- bytes are allocated.
pub record Items : Type 0 where
  pub head : List (List ℕ)
  pub allocated : ℕ

abbrev pub empty : Items
empty = record { head = []; allocated = 0 }

-- `PAGE_SIZE`: the size of the page that the kernel hands to `demo_read`.
abbrev pub page_size : ℕ
page_size = 4096

-- The loop of `demo_read` with `ret` bytes on the page: what it adds to them, or `none` where a `sprintf`
-- writes a byte, or the 0 behind the last, past the end of the page.
unfoldable pub print_items : (ret : ℕ) → List (List ℕ) → Option (List ℕ)
print_items ret [] = some []
print_items ret (bs ∷ rest) =
    let ret' = ret + length (text bs) in
    let more = print_items ret' rest in
    if leb page_size ret'
    then none
    else (elim more [ none ↦ none | some out ↦ some (text bs ++ out) ])

-- What is on the page when `demo_read` returns.
unfoldable pub demo_read : List (List ℕ) → Option (List ℕ)
demo_read head = print_items 0 head

module _ (user : UserAccess) where
  unfoldable pub demo_write : Call → Items → ℤ × Items
  demo_write c s = elim c.node [
    | failed e ↦ (enomem, s)
    | done ↦ elim c.kbuf [
      | failed e ↦ (enomem, s)
      | done ↦
          let (left, bs) = user.copy_in c.buffer c.count in
          let s' = record s { allocated = s.allocated + 1 } in
          if not (left == 0)
          then (enomem, record s' { allocated = s'.allocated - 1 })
          else (pos c.count, record s' { head = s.head ++ bs ∷ [] })
    ]
  ]

  unfoldable pub run : List Call → Items → Items
  run [] s = s
  run (c ∷ cs) s = run cs (demo_write c s).1

unfoldable pub init : Env → World → ℤ × World
init env w = elim (env (resource proc_entry 0)) [
  | failed e ↦ (enomem, w)
  | done ↦ (pos 0, acquire (resource proc_entry 0) w)
]

-- What is still allocated when the module is gone, and the world.
unfoldable pub exit : Items → World → ℕ × World
exit s w = (free_all s.head s.allocated, release (resource proc_entry 0) w)

-- The bytes of all items, however many they are.
abbrev pub all_text : List (List ℕ) → List ℕ
all_text [] = []
all_text (bs ∷ rest) = text bs ++ all_text rest

all_text-append :
    (xs : List (List ℕ)) (bs : List ℕ) → all_text (xs ++ bs ∷ []) ≡ all_text xs ++ text bs
all_text-append [] bs = append-nil (text bs)
all_text-append (x ∷ xs) bs =
    ap (λ t. text x ++ t) (all_text-append xs bs)
    ∙ sym (append_assoc (text x) (all_text xs) (text bs))

-- Items are printed up to the end of the page, and no further.
print_items_lem :
    (ret : ℕ) (xs : List (List ℕ))
    → ret < page_size
    → print_items ret xs
      ≡ (if ltb (ret + length (all_text xs)) page_size then some (all_text xs) else none)
unfolding print_items
print_items_lem ret [] room = ground (arith, room)
print_items_lem ret (x ∷ xs) room = elim (Bool-cases (leb page_size (ret + length (text x)))) [
  | inl over ↦ let size = length-append (text x) (all_text xs) in ground (arith, over, size)
  | inr fits ↦
      let size : ret + length (text x ++ all_text xs)
          ≡ ret + length (text x) + length (all_text xs) =
        omega (arith, length-append (text x) (all_text xs)) in
      let rest = print_items_lem (ret + length (text x)) xs (ground (arith, fits)) in
      ground (arith, fits, size, rest)
]

free_all-length : (xs : List (List ℕ)) (n : ℕ) → free_all xs (length xs + n) ≡ n
unfolding free_all
free_all-length [] n = omega arith
free_all-length (x ∷ xs) n =
    let one_less : length (x ∷ xs) + n - 1 ≡ length xs + n = omega arith in
    rw one_less (free_all-length xs n)

module _ (user : UserAccess) where
  -- The bytes of a write that is granted its memory and can be copied; else nothing.
  abbrev pub kept : Call → List ℕ
  kept c =
      if is_done c.node && is_done c.kbuf && (user.copy_in c.buffer c.count).0 == 0
      then text (take c.count c.buffer)
      else []

  abbrev pub all_kept : List Call → List ℕ
  all_kept [] = []
  all_kept (c ∷ cs) = kept c ++ all_kept cs

  write-step :
      (c : Call) (s : Items)
      → s.allocated ≡ length s.head
      → let s' = (demo_write user c s).1 in
        (s'.allocated ≡ length s'.head) × (all_text s'.head ≡ all_text s.head ++ kept c)
  unfolding demo_write
  write-step c s owned =
      let bs = (user.copy_in c.buffer c.count).1 in
      ground (
        arith,
        owned,
        length-append s.head (bs ∷ []),
        all_text-append s.head bs,
        user.in_all c.buffer c.count,
        append-nil (all_text s.head),
      )

  pub run-step :
      (cs : List Call) (s : Items)
      → s.allocated ≡ length s.head
      → let s' = run user cs s in
        (s'.allocated ≡ length s'.head) × (all_text s'.head ≡ all_text s.head ++ all_kept cs)
  unfolding run
  run-step [] s owned = (owned, sym (append-nil (all_text s.head)))
  run-step (c ∷ cs) s owned =
      let (owned', shows) = write-step c s owned in
      let (owned'', shows') = run-step cs (demo_write user c s).1 owned' in
      (
        owned'',
        shows'
            ∙ ap (λ t. t ++ all_kept cs) shows
            ∙ append_assoc (all_text s.head) (kept c) (all_kept cs),
      )

  -- After any writes, whatever failed in them: where the bytes of the writes that were granted their memory
  -- and could be copied, each up to its first 0, are fewer than a page, a read shows them in turn; where they
  -- are not, the read writes past the end of its page. `demo_exit` leaves no memory allocated.
  pub keeps_and_frees :
      (cs : List Call) (w : World)
      → let s = run user cs empty in
        (demo_read s.head
          ≡ (if ltb (length (all_kept cs)) page_size then some (all_kept cs) else none))
        × ((exit s w).0 ≡ 0)
  unfolding exit demo_read
  keeps_and_frees cs w =
      let s = run user cs empty in
      let (owned, shows) = run-step cs empty refl in
      let sum : s.allocated ≡ length s.head + 0 = omega (arith, owned) in
      let printed = print_items_lem 0 s.head (omega arith) in
      let none_before : 0 + length (all_kept cs) ≡ length (all_kept cs) = omega arith in
      (rw (shows, none_before) at printed, rw sum (free_all-length s.head 0))
