-- ===== src/Kbuf/Tests/Waits.antt =====
-- The blocking drivers at concrete inputs: a kernel that ends every wait that would sleep by a signal.
use kernel_code.Prelude.{ℕ, ◌≡◌, refl, true, List, [], ◌∷◌, ℤ, negsuc, replicate, arith}
use kernel_code.Kernel.Memory.Simple.{mapped}
use kernel_code.Kbuf.Script.{Reply, reply}
use kernel_code.Kbuf.Pipe
use kernel_code.Kbuf.Buffer.{
  IsValid, contents, has_data, has_space, shrink, shift_down, grow, store_tail,
}
use kernel_code.Kbuf.Waiting.{Device, fresh, wake_readers, wake_writers}
use kernel_code.Kbuf.Waiting.Simple.{signals}
use kernel_code.Kbuf.Block
use kernel_code.Kbuf.Block.Laws.{blocking_read_lem}
use kernel_code.Kbuf.Poll
use kernel_code.Kbuf.Poll.{pollin, pollout}
use kernel_code.Kbuf.Poll.Laws.{read_lem, write_lem, write_wakes_readers}

abbrev two : Device
two = record fresh { buffer = record { mem = 1 ∷ 2 ∷ replicate 510 0; validlen = 2 } }

two-IsValid : IsValid two.buffer
two-IsValid = omega arith

fresh-IsValid : IsValid fresh.buffer
fresh-IsValid = omega arith

abbrev full : Device
full = record fresh { buffer = record { mem = replicate 512 7; validlen = 512 } }

full-IsValid : IsValid full.buffer
full-IsValid = omega arith

blocking_read_lem_example :
    let (r, d') = Block.read mapped signals 9 1 two in
    ((r, contents d'.buffer) ≡ Pipe.read mapped 9 1 (1 ∷ 2 ∷ [])) × IsValid d'.buffer
blocking_read_lem_example = blocking_read_lem mapped signals two two-IsValid 9 1 (omega arith) refl

read_lem_example :
    let (r, d') = Poll.read mapped signals 9 1 fresh in
    ◌≡◌ {A = Reply × List ℕ} (r, contents d'.buffer) (reply (negsuc 511) [], []) × IsValid d'.buffer
read_lem_example = read_lem mapped signals fresh fresh-IsValid 9 1 (omega arith)

write_lem_example :
    let (r, d') = Poll.write mapped signals (3 ∷ []) 1 two in
    ◌≡◌ {A = ℤ × List ℕ} (r, contents d'.buffer) (Pipe.write mapped (3 ∷ []) 1 (1 ∷ 2 ∷ []))
    × IsValid d'.buffer
write_lem_example = write_lem mapped signals two two-IsValid (3 ∷ []) 1 (omega arith)

full-space : has_space (Poll.read mapped signals 9 4 full).1.buffer ≡ true
unfolding Poll.read wake_writers shrink shift_down
full-space = refl

fresh-data : has_data (Poll.write mapped signals (3 ∷ []) 1 fresh).1.buffer ≡ true
unfolding Poll.write wake_readers grow store_tail
fresh-data = refl

write_wakes_readers_example : (Poll.write mapped signals (3 ∷ []) 1 fresh).1.waitr ≡ 1
write_wakes_readers_example =
    write_wakes_readers mapped signals fresh fresh-IsValid (3 ∷ []) 1 refl fresh-data (omega arith)
