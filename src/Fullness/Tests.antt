-- ===== src/Fullness/Tests.antt =====
-- The device that is full or not at concrete inputs.
use kernel_code.Prelude.{false, true, not, [], ◌∷◌}
use kernel_code.Fullness.Laws.{get, put, successes, Alternates, successes_alternate}

successes_alternate_example :
    let (done, last) = successes (get 1 ∷ put 2 ∷ put 3 ∷ get 1 ∷ []) false in
    Alternates true done (not last)
successes_alternate_example = successes_alternate (get 1 ∷ put 2 ∷ put 3 ∷ get 1 ∷ []) false
