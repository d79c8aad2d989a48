-- ===== src/Kbuf/Nonblocking/Stream.antt =====
-- A kbuf is a stream: no byte is lost, made up, doubled or overtaken.
use kernel_code.Prelude.{
  ℕ, min, ◌≡◌, sym, List, [], ◌∷◌, ◌++◌, arith, length, append-nil, append_assoc, take-append-drop,
}
use kernel_code.Kernel.Memory.{UserAccess}
use kernel_code.Kbuf.Script.{Op, get, put, delivered, accepted, all_delivered, all_accepted}
use kernel_code.Kbuf.Pipe
use kernel_code.Kbuf.Buffer.{Buffer, IsValid, contents}
use kernel_code.Kbuf.Nonblocking.{run}
use kernel_code.Kbuf.Nonblocking.Refine.{run_refines}

module _ (user : UserAccess) where
  pub step_balance :
      (op : Op) (q : List ℕ)
      → let (r, q') = Pipe.step user op q in delivered op r ++ q' ≡ q ++ accepted op r
  unfolding Pipe.step Pipe.read Pipe.write delivered accepted
  step_balance (get room cnt) q =
      ground (arith, append-nil q, take-append-drop (min cnt (length q)) q)
  step_balance (put src cnt) q = ground (arith, append-nil q)

  run_balance :
      (ops : List Op) (q : List ℕ)
      → let (rs, q') = Pipe.run user ops q in all_delivered ops rs ++ q' ≡ q ++ all_accepted ops rs
  unfolding Pipe.run all_delivered all_accepted
  run_balance [] q = sym (append-nil q)
  run_balance (op ∷ ops) q =
      let (r, q') = Pipe.step user op q in
      let (rs, q'') = Pipe.run user ops q' in
      cc (
        append_assoc (delivered op r) (all_delivered ops rs) q'',
        append_assoc q (accepted op r) (all_accepted ops rs),
        append_assoc (delivered op r) q' (all_accepted ops rs),
        step_balance op q,
        run_balance ops q',
      )

  -- Over any calls on a valid kbuf, the bytes that reads delivered, followed by what is left in
  -- the kbuf, are the bytes that were there at first, followed by those that writes accepted.
  pub run_stream :
      (ops : List Op) {b : Buffer}
      → IsValid b
      → let (rs, b') = run user ops b in
        all_delivered ops rs ++ contents b' ≡ contents b ++ all_accepted ops rs
  run_stream ops {b} v = cc (run_balance ops (contents b), (run_refines user ops v).0)
