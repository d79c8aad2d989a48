-- ===== src/Atomic/Exclusive.antt =====
-- At most one process has the device open.
use kernel_code.Prelude.{
  ℕ, zero, suc, ◌+◌, ◌-◌, ◌<◌, ◌≤◌, ◌≡◌, refl, ap, ◌∙◌, true, ℤ, pos, negsuc, arith,
}
use kernel_code.Atomic.{
  Demo, start, increment, decrement, is_zero, try_open, return_busy, release, finish_release, Step,
  opens, gives_up, releases, closes, From, here, next,
}

-- 1 - n
abbrev pub one_minus : ℕ → ℤ
one_minus zero = pos 1
one_minus (suc zero) = pos 0
one_minus (suc (suc n)) = negsuc n

pub decrement-one_minus : (n : ℕ) → decrement (one_minus n) ≡ one_minus (suc n)
unfolding decrement
decrement-one_minus zero = refl
decrement-one_minus (suc zero) = refl
decrement-one_minus (suc (suc n)) = refl

pub increment-one_minus : (n : ℕ) → increment (one_minus (suc n)) ≡ one_minus n
unfolding increment
increment-one_minus zero = refl
increment-one_minus (suc zero) = refl
increment-one_minus (suc (suc n)) = refl

pub is_zero-one_minus : (n : ℕ) → is_zero (one_minus n) ≡ true → n ≡ 1
is_zero-one_minus zero h = cc
is_zero-one_minus (suc zero) h = refl
is_zero-one_minus (suc (suc n)) h = cc

-- The processes that have subtracted and not added again.
abbrev pub owed : Demo → ℕ
owed s = s.refused + (s.opened + s.closing + s.stuck)

pub record Inv (s : Demo) : Type 0 where
  pub counted : s.open_flags ≡ one_minus (owed s)
  pub one_owner : s.opened + s.closing + s.stuck ≤ 1

try_open-Inv : (s : Demo) → Inv s → Inv (try_open s)
unfolding try_open
try_open-Inv s v =
    let d = ap decrement v.counted in
    ground (arith, v.counted, decrement-one_minus (owed s), is_zero-one_minus (suc (owed s)))

pub start-Inv : Inv start
start-Inv = record { counted = refl; one_owner = omega arith }

-- A process that adds 1 makes up for what it subtracted.
added-counted :
    (s t : Demo) → Inv s → owed s ≡ suc (owed t) → increment s.open_flags ≡ one_minus (owed t)
added-counted s t v e =
    ap increment v.counted ∙ ap (λ n. increment (one_minus n)) e ∙ increment-one_minus (owed t)

return_busy-Inv : (s : Demo) → 0 < s.refused → Inv s → Inv (return_busy s)
unfolding return_busy
return_busy-Inv s some_there v = record {
  counted = added-counted s (record s { refused = s.refused - 1 }) v (omega arith);
  one_owner = v.one_owner;
}

finish_release-Inv : (s : Demo) → 0 < s.closing → Inv s → Inv (finish_release s)
unfolding finish_release
finish_release-Inv s some_there v = record {
  counted = added-counted s (record s { closing = s.closing - 1 }) v (omega (arith, v.one_owner));
  one_owner = omega (arith, v.one_owner);
}

release-Inv : (s : Demo) → 0 < s.opened → Inv s → Inv (release s)
unfolding release
release-Inv s some_there v =
    let moved : owed s ≡ s.refused + (s.opened - 1 + (s.closing + 1) + s.stuck) = omega arith in
    let left : owed s ≡ s.refused + (s.opened - 1 + s.closing + (s.stuck + 1)) = omega arith in
    ground (arith, v.counted, v.one_owner, ap one_minus moved, ap one_minus left)

pub Step-Inv : {s t : Demo} → Step s t → Inv s → Inv t
Step-Inv {s} opens v = try_open-Inv s v
Step-Inv {s} (gives_up h) v = return_busy-Inv s h v
Step-Inv {s} (releases h) v = release-Inv s h v
Step-Inv {s} (closes h) v = finish_release-Inv s h v

pub From-Inv : {s t : Demo} → From s t → Inv s → Inv t
From-Inv here v = v
From-Inv (next path step) v = Step-Inv step (From-Inv path v)

-- However the steps of any number of processes interleave from the start, at most one process has
-- the device open or has not finished closing it.
pub opened_once : {s : Demo} → From start s → s.opened + s.closing + s.stuck ≤ 1
opened_once path = (From-Inv path start-Inv).one_owner

-- When no process is inside `atomic_open` or `atomic_release` and all that opened the device closed it
-- with their addition made, the counter is 1 again, so that the next process can open the device.
pub flags_restored :
    {s : Demo}
    → From start s
    → s.refused ≡ 0
    → s.opened ≡ 0
    → s.closing ≡ 0
    → s.stuck ≡ 0
    → (s.open_flags ≡ pos 1) × ((try_open s).opened ≡ 1)
unfolding try_open decrement
flags_restored {s} path r o c k =
    let none_owed : owed s ≡ 0 = omega arith in
    let flags : s.open_flags ≡ pos 1 = (From-Inv path start-Inv).counted ∙ ap one_minus none_owed in
    (flags, rw flags (omega arith))
