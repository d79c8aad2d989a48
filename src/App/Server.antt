-- ===== src/App/Server.antt =====
-- kbufchardrv_poll/app/readserver.c: a program that waits with epoll until kbufs can be read and shows what
-- it reads, together with kbufchardrv_poll/kbuf.c.
pub mod Laws
mod Tests
use Prim.Native.Nat.{bit_and}
use kernel_code.Prelude.{
  Bool, true, false, ◌≡◌, ◌≢◌, ℕ, Option, none, some, List, [], ◌∷◌, ◌++◌, pos, negsuc, take, ◌==◌,
  if◌then◌else◌,
}
use kernel_code.Kernel.Memory.{UserAccess}
use kernel_code.Kbuf.Script.{Reply}
use kernel_code.Kbuf.Buffer.{IsValid}
use kernel_code.Kbuf.Waiting.{Device, Waiter}
use kernel_code.Kbuf.Poll.{read, poll, pollin}
use kernel_code.App.Kbuf.{text_of}

-- The number and the text of what is printed.
abbrev pub Line : Type 0
Line = ℕ × List ℕ

-- After the `read`: the line, or `none` where the program exits.
abbrev pub after_read : Reply → Option (List Line)
after_read r = elim r.ret [ pos n ↦ some ((n, text_of (take n r.out)) ∷ []) | negsuc e ↦ none ]

-- The kbufs that the program opened, by the number of the device.
abbrev pub Kbufs : Type 0
Kbufs = ℕ → Device

abbrev pub update : Kbufs → ℕ → Device → Kbufs
update kbufs i d j = if i == j then d else kbufs j

-- `struct epoll_event`: the device of `data.fd`, and `events`.
pub record Event : Type 0 where
  pub fd : ℕ
  pub events : ℕ

-- Whether one of the events is of device `i`.
abbrev pub among : ℕ → List Event → Bool
among i [] = false
among i (e ∷ es) = if i == e.fd then true else among i es

abbrev pub Distinct : List Event → Type 0
Distinct [] = Unit
Distinct (e ∷ es) = (among e.fd es ≡ false) × Distinct es

-- Only EPOLLIN was asked for, which is POLLIN.
abbrev pub Reported : Kbufs → List Event → Type 0
Reported kbufs [] = Unit
Reported kbufs (e ∷ es) =
    (e.events ≡ pollin) × (bit_and (poll (kbufs e.fd)) pollin ≡ pollin) × Reported kbufs es

abbrev pub AllValid : Kbufs → Type 0
AllValid kbufs = (i : ℕ) → IsValid (kbufs i).buffer

-- `epoll_wait` without a timeout: `none` is an error; else the events, in whatever order, and the kbufs
-- as they then are, after all that other processes did meanwhile.
pub record Epoll : Type 0 where
  pub wait : Kbufs → Option (List Event) × Kbufs
  -- It sleeps until there is an event, and reports each device once, if its mask says so then.
  pub some_event : (kbufs : Kbufs) → (wait kbufs).0 ≢ some []
  pub distinct : (kbufs : Kbufs) {es : List Event} → (wait kbufs).0 ≡ some es → Distinct es
  pub reported :
      (kbufs : Kbufs) {es : List Event} → (wait kbufs).0 ≡ some es → Reported (wait kbufs).1 es
  -- The other processes use the driver.
  pub keeps : (kbufs : Kbufs) → AllValid kbufs → AllValid (wait kbufs).1

-- The lines of one event before those of the others, unless the program exits at it.
abbrev pub join :
    Option (List Line) × Kbufs → Option (List Line) × Kbufs → Option (List Line) × Kbufs
join (none, kbufs) rest = (none, kbufs)
join (some l, kbufs) (none, kbufs') = (none, kbufs')
join (some l, kbufs) (some ls, kbufs') = (some (l ++ ls), kbufs')

module _ (user : UserAccess) (waiter : Waiter) where
  -- One round of the loop over the events.
  unfoldable pub serve : Event → Kbufs → Option (List Line) × Kbufs
  serve e kbufs =
      if bit_and e.events pollin == pollin
      then (let (r, d) = read user waiter 512 511 (kbufs e.fd) in
          (after_read r, update kbufs e.fd d))
      else (some [], kbufs)

  unfoldable pub serve_all : List Event → Kbufs → Option (List Line) × Kbufs
  serve_all [] kbufs = (some [], kbufs)
  serve_all (e ∷ es) kbufs =
      let served = serve e kbufs in let rest = serve_all es served.1 in join served rest

  -- One round of `while (1)`, with the lines that it prints; `none` where the program exits.
  unfoldable pub round : Epoll → Kbufs → Option (List Line) × Kbufs
  round epoll kbufs =
      let (retep, kbufs') = epoll.wait kbufs in
      elim retep [ none ↦ (none, kbufs') | some es ↦ serve_all es kbufs' ]
