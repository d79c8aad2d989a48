-- ===== src/Irq/InputKeys/Reports.antt =====
-- The events that the input subsystem gets, and the resources of the driver.
use kernel_code.Prelude.{
  ℕ, ◌+◌, ◌%◌, ◌^◌, ◌≡◌, refl, sym, ap, ◌∙◌, Bool, true, false, not, ◌&&◌, List, [], ◌∷◌, ◌++◌, pos,
  is_negative, arith, Bool-cases, inl, inr, ◌==◌, if◌then◌else◌,
}
use kernel_code.Kernel.Errno.{is_done}
use kernel_code.Kernel.World.{resource, input_device, World, acquire, release-acquire}
use kernel_code.Kernel.Device.{Env}
use kernel_code.Irq.Request.{with_irqs, irqs_granted, request_irq_key_lem, free_irq_key_lem}
use kernel_code.Irq.Keys.Setup.{irq_error-negative}
use kernel_code.Irq.InputKeys.{
  State, start, is_down, do_key_irq_tp, do_timer_key, do_bh_key, expire, run_tasklet, unregister,
  init, exit,
}

-- One event of the driver.
pub data Step (s : State) : State → Type 0 where
  interrupted : (dev : ℕ) → Step s (do_key_irq_tp dev s)
  expired : Step s (expire s)
  ran : Step s (run_tasklet s)

pub data Reach : State → Type 0 where
  here : Reach start
  next : {s t : State} → Reach s → Step s t → Reach t

-- What was reported of key `i` at last; `before` if nothing was.
unfoldable pub last_of : ℕ → Bool → List (ℕ × Bool) → Bool
last_of i before [] = before
last_of i before ((k, down) ∷ rest) = last_of i (if k == i then down else before) rest

-- The reports of key `i` go up and down in turns, from `before` on.
unfoldable pub alternates : ℕ → Bool → List (ℕ × Bool) → Bool
alternates i before [] = true
alternates i before ((k, down) ∷ rest) =
    let same = if before then not down else down in
    let tail = alternates i (if k == i then down else before) rest in
    if k == i then same && tail else tail

last_of-append :
    (i : ℕ) (before : Bool) (xs : List (ℕ × Bool)) (k : ℕ) (down : Bool)
    → last_of i before (xs ++ (k, down) ∷ []) ≡ (if k == i then down else last_of i before xs)
unfolding last_of
last_of-append i before [] k down = refl
last_of-append i before ((k', d) ∷ xs) k down =
    last_of-append i (if k' == i then d else before) xs k down

alternates-append :
    (i : ℕ) (before : Bool) (xs : List (ℕ × Bool)) (k : ℕ) (down : Bool)
    → alternates i before xs ≡ true
    → ((k == i) ≡ true → down ≡ not (last_of i before xs))
    → alternates i before (xs ++ (k, down) ∷ []) ≡ true
unfolding alternates last_of
alternates-append i before [] k down h t = ground arith
alternates-append i before ((k', d) ∷ xs) k down h t =
    let rest : alternates i (if k' == i then d else before) xs ≡ true = ground arith in
    let ih = alternates-append i (if k' == i then d else before) xs k down rest t in
    ground (arith, ih)

-- What holds between the events: the last report of each key is the parity of its count.
pub record Inv (s : State) : Type 0 where
  pub shown : (i : ℕ) → last_of i false s.reports ≡ is_down (s.cnt i)
  pub turns : (i : ℕ) → alternates i false s.reports ≡ true

pub next_parity : (n : ℕ) → is_down ((n + 1) % 2 ^ 32) ≡ not (is_down n)
next_parity n = ground arith

changes :
    (s : State)
    → Inv s
    → (k i : ℕ) → (k == i) ≡ true
    → is_down ((s.cnt k + 1) % 2 ^ 32) ≡ not (last_of i false s.reports)
changes s v k i same =
    let e : k ≡ i = ground arith in
    next_parity (s.cnt k) ∙ ap (λ j. not (is_down (s.cnt j))) e ∙ ap not (sym (v.shown i))

do_bh_key-Inv : (k : ℕ) (s : State) → Inv s → Inv (do_bh_key k s)
unfolding do_bh_key
do_bh_key-Inv k s v = record {
  shown = λ i.
      ground
        (arith, last_of-append i false s.reports k (is_down ((s.cnt k + 1) % 2 ^ 32)), v.shown i);
  turns = λ i.
      alternates-append i false s.reports k (is_down ((s.cnt k + 1) % 2 ^ 32)) (v.turns i)
        (changes s v k i);
}

expire-Inv : (s : State) → Inv s → Inv (expire s)
unfolding expire do_timer_key
expire-Inv s v = elim (Bool-cases s.timer.pending) [
  | inl runs ↦ rw runs (record { shown = v.shown; turns = v.turns })
  | inr waits ↦ rw waits (record { shown = v.shown; turns = v.turns })
]

run_tasklet-Inv : (s : State) → Inv s → Inv (run_tasklet s)
unfolding run_tasklet
run_tasklet-Inv s v = elim (Bool-cases s.task.pending) [
  | inl runs ↦
      let s' : State = record s { task = record s.task { pending = false } } in
      rw runs (do_bh_key-Inv s.task.arg s' (record { shown = v.shown; turns = v.turns }))
  | inr waits ↦ rw waits (record { shown = v.shown; turns = v.turns })
]

pub Step-Inv : {s t : State} → Step s t → Inv s → Inv t
unfolding do_key_irq_tp
Step-Inv (interrupted dev) v = record { shown = v.shown; turns = v.turns }
Step-Inv {s} expired v = expire-Inv s v
Step-Inv {s} ran v = run_tasklet-Inv s v

pub Reach-Inv : {s : State} → Reach s → Inv s
unfolding last_of alternates
Reach-Inv here = record { shown = λ i. refl; turns = λ i. refl }
Reach-Inv (next path step) = Step-Inv step (Reach-Inv path)

-- Whatever interrupts come and whenever the timer and the tasklet run: of each key, presses and
-- releases are reported in turns, beginning with a press, and the last report is the parity of
-- its count.
pub reports_alternate :
    {s : State}
    → Reach s
    → (i : ℕ)
    → (alternates i false s.reports ≡ true) × (last_of i false s.reports ≡ is_down (s.cnt i))
reports_alternate path i = ((Reach-Inv path).turns i, (Reach-Inv path).shown i)

abbrev pub registered : World → World
registered w = acquire (resource input_device 1) (acquire (resource input_device 0) w)

pub unregister-registered : (w : World) → unregister (registered w) ≡ w
unfolding unregister
unregister-registered w = simp release-acquire

abbrev pub granted : Env → Bool
granted env =
    is_done (env (resource input_device 0))
    && is_done (env (resource input_device 1))
    && irqs_granted env

exit-loaded : (w : World) → exit (with_irqs (registered w)) ≡ w
unfolding exit
exit-loaded w = rw (free_irq_key_lem (registered w)) (unregister-registered w)

-- `keys_init` returns 0, and `keys_exit` then gives back all that it took; or it returns a negative error
-- and holds nothing more than before.
pub init-exit_input_keys :
    (env : Env) (w : World)
    → let (ret, w') = init env w in
      if granted env then (ret ≡ pos 0) × (exit w' ≡ w) else (is_negative ret ≡ true) × (w' ≡ w)
unfolding init
init-exit_input_keys env w = ground (
  arith,
  release-acquire (resource input_device 0) w,
  request_irq_key_lem env (registered w),
  irq_error-negative env,
  exit-loaded w,
  unregister-registered w,
)
