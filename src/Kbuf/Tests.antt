-- ===== src/Kbuf/Tests.antt =====
-- Runs of the kbuf drivers on small inputs, and the theorems at concrete inputs.
mod Waits
mod Locks
mod Devices
use kernel_code.Prelude.{
  is_negative, false, ◌≡◌, refl, List, [], ◌∷◌, ◌++◌, ℤ, pos, arith, if◌then◌else◌,
}
use kernel_code.Kernel.Errno.{done, failed, eagain}
use kernel_code.Kernel.World.{World, nothing_held, resource, device, same}
use kernel_code.Kernel.Device.{Env}
use kernel_code.Kernel.Memory.Simple.{mapped}
use kernel_code.Kbuf.Script.{Op, get, put, Reply, reply, all_delivered, all_accepted}
use kernel_code.Kbuf.Pipe
use kernel_code.Kbuf.Buffer
use kernel_code.Kernel.Unwind.{all_granted}
use kernel_code.Kbuf.Buffer.{Buffer, IsValid, contents, empty_buffer}
use kernel_code.Kbuf.Nonblocking
use kernel_code.Kbuf.Nonblocking.Refine.{run_refines}
use kernel_code.Kbuf.Nonblocking.Stream.{run_stream}
use kernel_code.Kbuf.Setup
use kernel_code.Kbuf.Setup.Rollback.{
  device_rounds, granted, loaded, error, init_all_or_nothing, init_hides_device_error,
}

-- Two writes, a short read, a read of all, a read of nothing.
abbrev script : List Op
script = put (1 ∷ 2 ∷ 3 ∷ []) 3 ∷ put (4 ∷ []) 1 ∷ get 9 2 ∷ get 9 9 ∷ get 9 9 ∷ []

abbrev replies : List Reply
replies =
    reply (pos 3) []
    ∷ reply (pos 1) []
    ∷ reply (pos 2) (1 ∷ 2 ∷ [])
    ∷ reply (pos 2) (3 ∷ 4 ∷ [])
    ∷ reply eagain []
    ∷ []

run-script : (Nonblocking.run mapped script empty_buffer).0 ≡ replies
unfolding Nonblocking.run Nonblocking.step Nonblocking.read Nonblocking.write Buffer.shrink
    Buffer.shift_down Buffer.grow Buffer.store_tail
run-script = refl

empty_buffer-IsValid : IsValid empty_buffer
empty_buffer-IsValid = omega arith

run_refines_example :
    let (rs, b') = Nonblocking.run mapped script empty_buffer in
    ((rs, contents b') ≡ Pipe.run mapped script []) × IsValid b'
run_refines_example = run_refines mapped script empty_buffer-IsValid

run_stream_example :
    let (rs, b') = Nonblocking.run mapped script empty_buffer in
    all_delivered script rs ++ contents b' ≡ all_accepted script rs
run_stream_example = run_stream mapped script empty_buffer-IsValid

-- A kernel that refuses the device file of kbuf 3.
abbrev no_device_3 : Env
no_device_3 r = if same r (resource device 3) then failed 11 else done

init_all_or_nothing_example :
    let (ret, major, w) = Setup.init no_device_3 0 250 nothing_held in
    (◌≡◌ {A = ℤ × World} (ret, w) (pos 0, nothing_held)) × (is_negative ret ≡ false)
unfolding all_granted device_rounds
init_all_or_nothing_example = init_all_or_nothing no_device_3 0 250 nothing_held
