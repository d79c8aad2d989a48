-- ===== src/App/Threads/Laws.antt =====
-- The variable when both threads have come to their end.
use kernel_code.Prelude.{ℕ, ◌<◌, ◌^◌, ◌≡◌, refl, ap, ◌∙◌, subst, false, ◌&&◌, arith}
use kernel_code.Kernel.Lock.{Lock}
use kernel_code.App.Threads.{
  Pc, finished, Thread, Shared, increment, decrement, thread_step, do_thread_fool0, do_thread_fool1,
  System, step_up, step_down, Step, ups, downs, Reach, here, next,
}
use kernel_code.App.Threads.Invariant.{
  holds, stored, counted, Rounds, Keeps, value, value_up, value_down, thread_step-Keeps,
  Ready-counted,
}

module _ (cnt first : ℕ) (lock : Lock) where
  record Inv (s : System cnt lock) : Type 0 where
    up_keeps : Keeps cnt lock increment (holds s.down.pc) s.up s.shared
    down_keeps : Keeps cnt lock decrement (holds s.up.pc) s.down s.shared
    var_eq : s.shared.var ≡ value first (stored s.up.pc s.up.i) (stored s.down.pc s.down.i)

  -- What one thread keeps of the lock, the other keeps too.
  kept_across :
      (op op' : ℕ → ℕ) (p : Pc) (t u : Thread) (m₀ m : Shared lock.State)
      → Keeps cnt lock op (holds u.pc) t m
      → Keeps cnt lock op' (holds p) u m₀
      → (holds p && holds u.pc) ≡ false
      → m.var ≡ counted op p m₀.var
      → Keeps cnt lock op' (holds t.pc) u m
  kept_across op op' p t u m₀ m v w one moved = record {
    held = ground (arith, v.held);
    alone = ground (arith, v.alone);
    ready = rw moved (Ready-counted cnt lock op' op p u.pc m₀.var one w.ready);
    rounds = w.rounds;
  }

  step_up-Inv : (s : System cnt lock) → Inv s → Inv (step_up cnt lock s)
  unfolding do_thread_fool0
  step_up-Inv s v =
      let (t, m) = thread_step cnt lock increment s.up s.shared in
      let (kept, moved, more) =
        thread_step-Keeps cnt lock increment (holds s.down.pc) s.up.pc s.up.i s.shared v.up_keeps in
      record {
        up_keeps = kept;
        down_keeps =
            kept_across increment decrement s.up.pc t s.down s.shared m kept v.down_keeps
              v.up_keeps.alone moved;
        var_eq =
            rw (moved, more)
              (value_up first (stored s.up.pc s.up.i) (stored s.down.pc s.down.i) s.up.pc v.var_eq);
      }

  step_down-Inv : (s : System cnt lock) → Inv s → Inv (step_down cnt lock s)
  unfolding do_thread_fool1
  step_down-Inv s v =
      let (t, m) = thread_step cnt lock decrement s.down s.shared in
      let (kept, moved, more) =
        thread_step-Keeps cnt lock decrement (holds s.up.pc) s.down.pc s.down.i s.shared
          v.down_keeps in
      record {
        up_keeps =
            kept_across decrement increment s.down.pc t s.up s.shared m kept v.up_keeps
              v.down_keeps.alone moved;
        down_keeps = kept;
        var_eq =
            rw (moved, more)
              (value_down first (stored s.up.pc s.up.i) (stored s.down.pc s.down.i) s.down.pc
                v.var_eq);
      }

  Step-Inv : {s t : System cnt lock} → Step cnt lock s t → Inv s → Inv t
  Step-Inv {s} ups v = step_up-Inv s v
  Step-Inv {s} downs v = step_down-Inv s v

  Reach-Inv : first < 2 ^ 32 → {s : System cnt lock} → Reach cnt lock first s → Inv s
  Reach-Inv small here = record {
    up_keeps = record { held = refl; alone = refl; ready = tt; rounds = omega arith };
    down_keeps = record { held = refl; alone = refl; ready = tt; rounds = omega arith };
    var_eq = omega (arith, small);
  }
  Reach-Inv small (next path step) = Step-Inv step (Reach-Inv small path)

  all_rounds : (t : Thread) → t.pc ≡ finished → Rounds cnt t.pc t.i → stored t.pc t.i ≡ cnt
  all_rounds t done rounds =
      let made : t.i ≡ cnt = subst (λ p. Rounds cnt p t.i) done rounds in
      ap (λ p. stored p t.i) done ∙ made

  -- However the steps of the two threads interleave: when both have finished, the variable is what it was
  -- before.
  pub threads_cancel :
      {s : System cnt lock}
      → first < 2 ^ 32
      → Reach cnt lock first s
      → s.up.pc ≡ finished
      → s.down.pc ≡ finished
      → s.shared.var ≡ first
  threads_cancel {s} small path up_done down_done =
      let v = Reach-Inv small path in
      let up_all = all_rounds s.up up_done v.up_keeps.rounds in
      let down_all = all_rounds s.down down_done v.down_keeps.rounds in
      omega (arith, v.var_eq, up_all, down_all)
