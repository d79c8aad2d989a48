-- ===== src/Irq/Touch.antt =====
-- input/1point_ts/key.c, input/5point_mt/key.c and kernel_code_v1/demo_ts: the keys as a touch screen
-- of the input subsystem. Each press moves the points on and reports them; each release reports
-- that nothing presses. The drivers differ in the kinds of events and the number of points.
pub mod Frames
pub mod Shown
pub mod OnePoint
pub mod FivePoint
use kernel_code.Prelude.{
  ℕ, ◌+◌, ◌%◌, ◌^◌, Bool, true, false, List, [], ◌∷◌, ◌++◌, map, if◌then◌else◌,
}
use kernel_code.Irq.Keys.{set_at}
use kernel_code.Irq.InputKeys.{is_down}

-- `struct tspos`, or a row of `ares`
pub record Tspos : Type 0 where
  pub x : ℕ
  pub y : ℕ

abbrev pub at : ℕ → ℕ → Tspos
at x y = record { x = x; y = y }

-- The calls that report to the input subsystem: `input_report_abs` with ABS_X, ABS_Y or their MT
-- variants, `input_mt_sync`, `input_report_abs` with a pressure, `input_report_key` with BTN_TOUCH, and
-- `input_sync`.
pub data Event : Type 0 where
  abs_x abs_y mt_position_x mt_position_y pressure btn_touch : (value : ℕ) → Event
  mt_sync sync : Event

-- Which events a driver reports: those of several points or of one, and BTN_TOUCH or not.
pub record Format : Type 0 where
  pub multi : Bool
  pub button : Bool

-- The counts of the keys as 32 bits, the points, and what was reported, oldest first.
pub record Touch : Type 0 where
  pub cnt : ℕ → ℕ
  pub axes : List Tspos
  pub reports : List Event

abbrev pub start : List Tspos → Touch
start axes = record { cnt = λ i. 0; axes = axes; reports = [] }

-- `x++; x %= 800; y++; y %= 480`
abbrev pub move : Tspos → Tspos
move p = at ((p.x + 1) % 800) ((p.y + 1) % 480)

-- The reports of the points in turn.
abbrev pub report_axes : Bool → List Tspos → List Event
report_axes multi [] = []
report_axes true (p ∷ ps) = mt_position_x p.x ∷ mt_position_y p.y ∷ mt_sync ∷ report_axes true ps
report_axes false (p ∷ ps) = abs_x p.x ∷ abs_y p.y ∷ report_axes false ps

-- The reports after the points: whether there is a touch, and the end of the frame.
abbrev pub report_pressure : Format → ℕ → List Event
report_pressure f v = pressure v ∷ (if f.button then btn_touch v ∷ sync ∷ [] else sync ∷ [])

-- The half that does the work, for one key.
unfoldable pub do_bh_key : Format → ℕ → Touch → Touch
do_bh_key f idx s =
    let cnt' = (s.cnt idx + 1) % 2 ^ 32 in
    if is_down cnt'
    then (let axes' = map move s.axes in
        record {
          cnt = set_at s.cnt idx cnt';
          axes = axes';
          reports = s.reports ++ report_axes f.multi axes' ++ report_pressure f 1;
        })
    else record s { cnt = set_at s.cnt idx cnt'; reports = s.reports ++ report_pressure f 0 }
