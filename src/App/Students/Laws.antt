-- ===== src/App/Students/Laws.antt =====
-- Students that go to the queue one after another, and what is read then.
use kernel_code.Prelude.{
  ℕ, suc, ◌+◌, ◌-◌, ◌^◌, ◌<◌, ◌≤◌, ◌≡◌, refl, sym, ap, ◌∙◌, some, Bool, true, false, List, [], ◌∷◌,
  ◌++◌, length, take, drop, map, replicate, arith, length-append, length-take, take-length,
  drop-append, length-replicate, append_assoc, append-nil, ◌==◌, if◌then◌else◌,
}
use kernel_code.Kernel.Errno.{done}
use kernel_code.Kernel.Memory.{UserAccess}
use kernel_code.Dlist.{Stu, StuHead, empty, sizeof_stu, read, write}
use kernel_code.App.Kbuf.{text_of}
use kernel_code.App.Students.{
  Person, name_field, word_bytes, word_of, stu_bytes, person_of, Line, student, main_wr, main_rd,
  write_all, read_all,
}

length-name_field : (name : List ℕ) → length (name_field name) ≡ 32
length-name_field name = omega (
  arith,
  length-append (take 31 name) (replicate (32 - length (take 31 name)) 0),
  length-replicate {A = ℕ} (32 - length (take 31 name)) 0,
  length-take 31 name,
)

pub length-stu_bytes : (p : Person) → length (stu_bytes p) ≡ 36
unfolding stu_bytes
length-stu_bytes p =
    omega (arith, length-append (name_field p.name) (word_bytes p.old), length-name_field p.name)

-- The characters of a text are not 0.
abbrev pub all_set : List ℕ → Bool
all_set [] = true
all_set (b ∷ bs) = if b == 0 then false else all_set bs

text_of-append : (name rest : List ℕ) → all_set name ≡ true → text_of (name ++ 0 ∷ rest) ≡ name
unfolding text_of
text_of-append [] rest plain = refl
text_of-append (b ∷ bs) rest plain = ground (arith, text_of-append bs rest)

word_of-word_bytes : (n : ℕ) → n < 2 ^ 32 → word_of (word_bytes n) ≡ n
word_of-word_bytes n small = omega (arith, small)

-- A person that the program can hand over as it is.
pub record Fits (p : Person) : Type 0 where
  pub short : length p.name ≤ 31
  pub plain : all_set p.name ≡ true
  pub small : p.old < 2 ^ 32

name_field_lem :
    (name : List ℕ)
    → length name ≤ 31
    → name_field name ≡ name ++ 0 ∷ replicate (31 - length name) 0
name_field_lem name short =
    let left : 32 - length name ≡ suc (31 - length name) = omega (arith, short) in
    rw (take-length name 31 short, left) refl

person_of-stu_bytes : (p : Person) → Fits p → person_of (stu_bytes p) ≡ p
unfolding person_of stu_bytes
person_of-stu_bytes p v =
    let zeros = 0 ∷ replicate (31 - length p.name) 0 in
    let name_eq : text_of (name_field p.name ++ word_bytes p.old) ≡ p.name =
      ap (λ f. text_of (f ++ word_bytes p.old)) (name_field_lem p.name v.short)
      ∙ ap text_of (append_assoc p.name zeros (word_bytes p.old))
      ∙ text_of-append p.name (replicate (31 - length p.name) 0 ++ word_bytes p.old) v.plain in
    let old_eq : word_of (drop 32 (name_field p.name ++ word_bytes p.old)) ≡ p.old =
      ap word_of (drop-append 32 (name_field p.name) (word_bytes p.old) (length-name_field p.name))
      ∙ word_of-word_bytes p.old v.small in
    ap (λ n. record { name = n; old = word_of (drop 32 (name_field p.name ++ word_bytes p.old)) })
      name_eq
    ∙ ap (λ o. record { name = p.name; old = o }) old_eq

-- The list with the records of `ps` behind `stus`, and `spare` nodes that were lost before.
abbrev with_all : List Stu → (num spare : ℕ) → List Person → StuHead
with_all stus num allocated ps = record {
  head = stus ++ map stu_bytes ps;
  num = num + length ps;
  allocated = allocated + length ps;
}

abbrev pub AllFit : List Person → Type 0
AllFit [] = Unit
AllFit (p ∷ ps) = Fits p × AllFit ps

with_all-nil : (s : StuHead) → with_all s.head s.num s.allocated [] ≡ s
with_all-nil s =
    let n : s.num + 0 ≡ s.num = omega arith in
    let a : s.allocated + 0 ≡ s.allocated = omega arith in rw (append-nil s.head, n, a) refl

with_all-cons :
    (stus : List Stu) (num allocated : ℕ) (p : Person) (ps : List Person)
    → with_all (stus ++ stu_bytes p ∷ []) (num + 1) (allocated + 1) ps
      ≡ with_all stus num allocated (p ∷ ps)
with_all-cons stus num allocated p ps =
    let n : num + 1 + length ps ≡ num + suc (length ps) = omega arith in
    let a : allocated + 1 + length ps ≡ allocated + suc (length ps) = omega arith in
    rw (n, a, append_assoc stus (stu_bytes p ∷ []) (map stu_bytes ps)) refl

module _ (user : UserAccess) where
  main_wr_lem :
      (p : Person) (s : StuHead)
      → s.num ≤ 50
      → (user.copy_in (stu_bytes p) sizeof_stu).0 ≡ 0
      → main_wr user done p s ≡ (
        true,
        record { head = s.head ++ stu_bytes p ∷ []; num = s.num + 1; allocated = s.allocated + 1 },
      )
  unfolding main_wr write
  main_wr_lem p s room ok =
      let whole =
        user.in_all (stu_bytes p) sizeof_stu ok
        ∙ take-length (stu_bytes p) 36 (omega (arith, length-stu_bytes p)) in
      ground (arith, whole)

  main_rd_lem :
      (p : Person) (rest : List Stu) (num allocated : ℕ)
      → Fits p
      → (user.copy_out sizeof_stu (stu_bytes p)).0 ≡ 0
      → main_rd user
          (record { head = stu_bytes p ∷ rest; num = suc num; allocated = suc allocated })
        ≡ some (student p, record { head = rest; num = num; allocated = allocated })
  unfolding main_rd read
  main_rd_lem p rest num allocated v ok =
      let whole = user.out_all sizeof_stu (stu_bytes p) ok in
      ground (arith, whole, ok, person_of-stu_bytes p v)

  write_all_lem :
      (ps : List Person) (s : StuHead)
      → s.num + length ps ≤ 51
      → ((p : Person) → (user.copy_in (stu_bytes p) sizeof_stu).0 ≡ 0)
      → write_all user done ps s
        ≡ (replicate (length ps) true, with_all s.head s.num s.allocated ps)
  unfolding write_all
  write_all_lem [] s room ok = ap (λ t. ([], t)) (sym (with_all-nil s))
  write_all_lem (p ∷ ps) s room ok =
      let t : StuHead = record {
        head = s.head ++ stu_bytes p ∷ [];
        num = s.num + 1;
        allocated = s.allocated + 1;
      } in
      let rest = write_all_lem ps t (omega (arith, room)) ok in
      ap (λ m. (m.0 ∷ (write_all user done ps m.1).0, (write_all user done ps m.1).1))
        (main_wr_lem p s (omega (arith, room)) (ok p))
      ∙ ap (λ m. (true ∷ m.0, m.1)) rest
      ∙ ap (λ u. (true ∷ replicate (length ps) true, u))
          (with_all-cons s.head s.num s.allocated p ps)

  read_all_next :
      (runs : ℕ) (s s' : StuHead) (line : Line) (lines : List Line)
      → main_rd user s ≡ some (line, s')
      → read_all user runs s' ≡ some lines
      → read_all user (suc runs) s ≡ some (line ∷ lines)
  unfolding read_all
  read_all_next runs s s' line lines e rest = rw (e, read_all, rest) refl

  read_all_lem :
      (ps : List Person) (spare : ℕ)
      → AllFit ps
      → ((p : Person) → (user.copy_out sizeof_stu (stu_bytes p)).0 ≡ 0)
      → read_all user (length ps) (with_all [] 0 spare ps) ≡ some (map student ps)
  unfolding read_all
  read_all_lem [] spare fit ok = refl
  read_all_lem (p ∷ ps) spare (v, fit) ok =
      let n : 0 + suc (length ps) ≡ suc (0 + length ps) = omega arith in
      let a : spare + suc (length ps) ≡ suc (spare + length ps) = omega arith in
      let s : StuHead = record {
        head = stu_bytes p ∷ map stu_bytes ps;
        num = suc (0 + length ps);
        allocated = suc (spare + length ps);
      } in
      let same : with_all [] 0 spare (p ∷ ps) ≡ s = rw (n, a) refl in
      ap (read_all user (suc (length ps))) same
      ∙ read_all_next (length ps) s (with_all [] 0 spare ps) (student p) (map student ps)
          (main_rd_lem p (map stu_bytes ps) (0 + length ps) (spare + length ps) v (ok p))
          (read_all_lem ps spare fit ok)

  -- Up to 51 students, each with a name of at most 31 characters, are handed one after another to an empty
  -- queue, and all copies and requests for memory succeed: every write takes its whole record, and as many
  -- reads then print the students as they were, in the same order.
  pub students_come_back :
      (ps : List Person)
      → length ps ≤ 51
      → AllFit ps
      → ((p : Person) → (user.copy_in (stu_bytes p) sizeof_stu).0 ≡ 0)
      → ((p : Person) → (user.copy_out sizeof_stu (stu_bytes p)).0 ≡ 0)
      → let (oks, s) = write_all user done ps empty in
        (oks ≡ replicate (length ps) true) × (read_all user (length ps) s ≡ some (map student ps))
  students_come_back ps room fit ok ok' =
      let wrote = write_all_lem ps empty (omega (arith, room)) ok in
      (
        ap (λ m. m.0) wrote,
        ap (λ m. read_all user (length ps) m.1) wrote ∙ read_all_lem ps 0 fit ok',
      )
