-- ===== src/Irq/Touch/Frames.antt =====
-- The specification of a touch screen: what a reader of the events of a touch screen sees: frames, each the points that are touched.
use kernel_code.Prelude.{
  ℕ, ◌+◌, ◌%◌, Bool, true, false, not, ◌&&◌, List, [], ◌∷◌, ◌++◌, map, ◌==◌, ltb, if◌then◌else◌,
}
use kernel_code.Irq.Touch.{
  Tspos, at, Event, abs_x, abs_y, mt_position_x, mt_position_y, pressure, btn_touch, mt_sync, sync,
  Format,
}

-- The points that were reported since the frame before, and whether pressure and BTN_TOUCH stand.
pub record Frame : Type 0 where
  pub points : List Tspos
  pub pressed : Bool
  pub touched : Bool

-- A reader between two events: the position that was reported last, and the frame so far.
pub record Reader : Type 0 where
  pub last_x : ℕ
  pub last_y : ℕ
  pub frame : Frame

-- `input_mt_sync` ends a point of several; of one point, ABS_Y is what ends it.
unfoldable pub decode : Reader → List Event → List Frame
decode r [] = []
decode r (abs_x v ∷ es) = decode (record r { last_x = v }) es
decode r (abs_y v ∷ es) =
    decode
      (record r {
        last_y = v;
        frame = record r.frame { points = r.frame.points ++ at r.last_x v ∷ [] };
      })
      es
decode r (mt_position_x v ∷ es) = decode (record r { last_x = v }) es
decode r (mt_position_y v ∷ es) = decode (record r { last_y = v }) es
decode r (mt_sync ∷ es) =
    decode
      (record r { frame = record r.frame { points = r.frame.points ++ at r.last_x r.last_y ∷ [] } })
      es
decode r (pressure v ∷ es) = decode (record r { frame = record r.frame { pressed = ltb 0 v } }) es
decode r (btn_touch v ∷ es) = decode (record r { frame = record r.frame { touched = ltb 0 v } }) es
decode r (sync ∷ es) = r.frame ∷ decode (record r { frame = record r.frame { points = [] } }) es

abbrev pub nothing_read : Reader
nothing_read = record {
  last_x = 0;
  last_y = 0;
  frame = record { points = []; pressed = false; touched = false };
}

-- A point after `n` presses.
abbrev pub shifted : ℕ → Tspos → Tspos
shifted n p = at ((p.x + n) % 800) ((p.y + n) % 480)

-- Key `k` is pressed if it was up, and let go if it was down.
abbrev pub toggled : (ℕ → Bool) → ℕ → ℕ → Bool
toggled down k i = if k == i then not (down k) else down i

-- Each key is pressed and let go in turns.
unfoldable pub downs : (ℕ → Bool) → List ℕ → List Bool
downs down [] = []
downs down (k ∷ ks) = not (down k) ∷ downs (toggled down k) ks

-- The frames that presses and releases show after `n` presses.
unfoldable pub shown : Format → List Tspos → ℕ → List Bool → List Frame
shown f axes n [] = []
shown f axes n (true ∷ rest) =
    record { points = map (shifted (n + 1)) axes; pressed = true; touched = f.button }
    ∷ shown f axes (n + 1) rest
shown f axes n (false ∷ rest) =
    record { points = []; pressed = false; touched = false } ∷ shown f axes n rest

-- Every point is on the screen of 800 by 480.
abbrev pub inside : List Tspos → Bool
inside [] = true
inside (p ∷ ps) = ltb p.x 800 && ltb p.y 480 && inside ps

-- Every point of every frame is on the screen.
abbrev pub all_inside : List Frame → Bool
all_inside [] = true
all_inside (fr ∷ frs) = inside fr.points && all_inside frs
