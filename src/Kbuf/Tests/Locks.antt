-- ===== src/Kbuf/Tests/Locks.antt =====
-- Two processes at one kbuf under a mutex, and at one without a lock.
use kernel_code.Prelude.{ℕ, ◌-◌, ◌^◌, ◌≡◌, refl, true, false, [], ◌∷◌, ◌++◌, pos, replicate, arith}
use kernel_code.Kernel.Memory.Simple.{mapped}
use kernel_code.Kernel.Lock.Simple.{mutex}
use kernel_code.Kbuf.Script.{Op, get, put, reply}
use kernel_code.Kbuf.Buffer.{Buffer, IsValid, contents}
use kernel_code.Kbuf.Locked.{
  idle, System, begin, advance, put_back, start, Reach, here, next, starts, moves,
}
use kernel_code.Kbuf.Locked.Invariant.{in_section, Serial}
use kernel_code.Kbuf.Locked.Serial.{
  mutual_exclusion, serializable, section_ends, turns, delivered_by, accepted_by,
}
use kernel_code.Kbuf.Race.{called, returned, interleave}
use kernel_code.Kbuf.Race.Lost.{in_turns, both_read_all}

-- A step of process `i`, under a mutex.
abbrev go : System mapped mutex → ℕ → System mapped mutex
go s i = put_back mapped mutex s i (advance mapped mutex (s.pc i) s.shared)

abbrev call : System mapped mutex → ℕ → Op → System mapped mutex
call s i op = put_back mapped mutex s i (begin mapped mutex op s.shared)

-- Process 0 writes a byte and process 1 reads: 0 has the lock, 1 waits for it.
abbrev both_called : System mapped mutex
both_called = call (call (start mapped mutex) 0 (put (5 ∷ []) 1)) 1 (get 9 9)

abbrev contended : System mapped mutex
contended = go (go both_called 0) 1

both_called-Reach : Reach mapped mutex both_called
unfolding begin
both_called-Reach = next (next here (starts 0 (put (5 ∷ []) 1) refl)) (starts 1 (get 9 9) refl)

contended-Reach : Reach mapped mutex contended
contended-Reach = next (next both_called-Reach (moves 0)) (moves 1)

inside-0 : in_section (contended.pc 0) ≡ true
unfolding begin advance
inside-0 = refl

mutual_exclusion_example : in_section (contended.pc 1) ≡ false
mutual_exclusion_example = mutual_exclusion mapped mutex contended-Reach 0 1 inside-0 (omega arith)

section_ends_example :
    let s' = turns mapped mutex 4 0 contended in (s'.pc 0 ≡ idle) × (s'.shared.lock ≡ false)
section_ends_example = section_ends mapped mutex 0 contended-Reach inside-0

-- Process 0 leaves, and process 1 reads the byte.
abbrev finished : System mapped mutex
finished = go (go (go (go (go (go (go (go contended 0) 0) 0) 1) 1) 1) 1) 1

finished-Reach : Reach mapped mutex finished
finished-Reach =
    next
      (next
        (next
          (next (next (next (next (next contended-Reach (moves 0)) (moves 0)) (moves 0)) (moves 1))
            (moves 1))
          (moves 1))
        (moves 1))
      (moves 1)

nobody_inside : (i : ℕ) → in_section (finished.pc i) ≡ false
unfolding begin advance
nobody_inside i = ground arith

serializable_example :
    Serial mapped finished.shared.log finished.shared.buffer
    × (delivered_by finished.shared.log ++ contents finished.shared.buffer
        ≡ accepted_by finished.shared.log)
    × IsValid finished.shared.buffer
serializable_example = serializable mapped mutex finished-Reach nobody_inside

abbrev two : Buffer
two = record { mem = 1 ∷ 2 ∷ replicate 510 0; validlen = 2 }

two-IsValid : IsValid two
two-IsValid = omega arith

both_read_all_example :
    let s =
      interleave mapped in_turns (record { buffer = two; one = called 8 8; two = called 9 2 }) in
    (s.one ≡ returned (reply (pos 2) (1 ∷ 2 ∷ [])))
    × (s.two ≡ returned (reply (pos 2) (1 ∷ 2 ∷ [])))
    × (s.buffer.validlen ≡ 2 ^ 32 - 2)
both_read_all_example =
    both_read_all mapped two two-IsValid 8 8 9 2 (omega arith) (omega arith) (omega arith) refl refl
