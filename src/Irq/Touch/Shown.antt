-- ===== src/Irq/Touch/Shown.antt =====
-- The events of a touch screen show the frames that its keys ask for.
use kernel_code.Prelude.{
  ℕ, ◌+◌, ◌%◌, ◌^◌, ◌≡◌, refl, sym, ap, ◌∙◌, Bool, true, false, not, ◌||◌, List, [], ◌∷◌, ◌++◌, map,
  append-nil, append_assoc, arith, Bool-cases, inl, inr, if◌then◌else◌,
}
use kernel_code.Irq.Keys.{set_at}
use kernel_code.Irq.InputKeys.{is_down}
use kernel_code.Irq.InputKeys.Reports.{next_parity}
use kernel_code.Irq.Halves.{Halves, handled, handled-append, Reach, Handled, Reach-Handled}
use kernel_code.Irq.Halves.Older
use kernel_code.Irq.Touch.{
  Tspos, Event, Format, Touch, start, move, report_axes, report_pressure, do_bh_key,
}
use kernel_code.Irq.Touch.Frames.{
  Frame, Reader, decode, nothing_read, shifted, toggled, downs, shown, inside, all_inside,
}

-- The events that presses and releases report after `n` presses.
unfoldable events : Format → List Tspos → ℕ → List Bool → List Event
events f axes n [] = []
events f axes n (true ∷ rest) =
    report_axes f.multi (map (shifted (n + 1)) axes)
    ++ (report_pressure f 1 ++ events f axes (n + 1) rest)
events f axes n (false ∷ rest) = report_pressure f 0 ++ events f axes n rest

-- `x` and `y` are the last position, `pts`, `p` and `t` the frame so far.
abbrev reader : ℕ → ℕ → List Tspos → Bool → Bool → Reader
reader x y pts p t = record {
  last_x = x;
  last_y = y;
  frame = record { points = pts; pressed = p; touched = t };
}

-- The reports of points add just these points to the frame.
decode-report_axes :
    (multi : Bool) (ps : List Tspos) (x y : ℕ) (pts : List Tspos) (p t : Bool) (rest : List Event)
    → (x' : ℕ) × (y' : ℕ) × (decode (reader x y pts p t) (report_axes multi ps ++ rest)
        ≡ decode (reader x' y' (pts ++ ps) p t) rest)
unfolding decode
decode-report_axes multi [] x y pts p t rest =
    (x, y, ap (λ l. decode (reader x y l p t) rest) (sym (append-nil pts)))
decode-report_axes true (q ∷ ps) x y pts p t rest =
    let (x', y', e) = decode-report_axes true ps q.x q.y (pts ++ q ∷ []) p t rest in
    (x', y', e ∙ ap (λ l. decode (reader x' y' l p t) rest) (append_assoc pts (q ∷ []) ps))
decode-report_axes false (q ∷ ps) x y pts p t rest =
    let (x', y', e) = decode-report_axes false ps q.x q.y (pts ++ q ∷ []) p t rest in
    (x', y', e ∙ ap (λ l. decode (reader x' y' l p t) rest) (append_assoc pts (q ∷ []) ps))

-- `true` and `false` as the argument of the reports
abbrev one_if : Bool → ℕ
one_if b = if b then 1 else 0

decode-report_pressure :
    (f : Format) (b : Bool) (x y : ℕ) (pts : List Tspos) (p t : Bool) (rest : List Event)
    → (f.button || not t) ≡ true
    → decode (reader x y pts p t) (report_pressure f (one_if b) ++ rest)
      ≡ record { points = pts; pressed = b; touched = if b then f.button else false }
        ∷ decode (reader x y [] b (if b then f.button else false)) rest
unfolding decode
decode-report_pressure f b x y pts p t rest h = ground arith

decode-events :
    (f : Format) (axes : List Tspos) (n : ℕ) (bs : List Bool) (x y : ℕ) (p t : Bool)
    → (f.button || not t) ≡ true
    → decode (reader x y [] p t) (events f axes n bs) ≡ shown f axes n bs
unfolding events shown decode
decode-events f axes n [] x y p t h = refl
decode-events f axes n (true ∷ bs) x y p t h =
    let ps = map (shifted (n + 1)) axes in
    let rest = events f axes (n + 1) bs in
    let (x', y', e) = decode-report_axes f.multi ps x y [] p t (report_pressure f 1 ++ rest) in
    e
    ∙ decode-report_pressure f true x' y' ps p t rest h
    ∙ ap (λ fs. record { points = ps; pressed = true; touched = f.button } ∷ fs)
        (decode-events f axes (n + 1) bs x' y' true f.button (ground arith))
decode-events f axes n (false ∷ bs) x y p t h =
    decode-report_pressure f false x y [] p t (events f axes n bs) h
    ∙ ap (λ fs. record { points = []; pressed = false; touched = false } ∷ fs)
        (decode-events f axes n bs x y false false (ground arith))

move-shifted :
    (axes : List Tspos) (n : ℕ) → map move (map (shifted n) axes) ≡ map (shifted (n + 1)) axes
move-shifted [] n = refl
move-shifted (p ∷ ps) n =
    let x_eq : ((p.x + n) % 800 + 1) % 800 ≡ (p.x + (n + 1)) % 800 = omega arith in
    let y_eq : ((p.y + n) % 480 + 1) % 480 ≡ (p.y + (n + 1)) % 480 = omega arith in
    rw (x_eq, y_eq, move-shifted ps n) refl

-- The driver and the keys before a key is handled, after `n` presses.
record Tracks (axes : List Tspos) (n : ℕ) (down : ℕ → Bool) (s : Touch) : Type 0 where
  at_shift : s.axes ≡ map (shifted n) axes
  parities : (i : ℕ) → is_down (s.cnt i) ≡ down i

module _ (f : Format) (axes : List Tspos) (n : ℕ) (down : ℕ → Bool) (s : Touch) (k : ℕ) where
  abbrev cnt' : ℕ → ℕ
  cnt' = set_at s.cnt k ((s.cnt k + 1) % 2 ^ 32)

  do_bh_key-release :
      Tracks axes n down s
      → down k ≡ true
      → do_bh_key f k s ≡ record s { cnt = cnt'; reports = s.reports ++ report_pressure f 0 }
  unfolding do_bh_key
  do_bh_key-release v up = rw (next_parity (s.cnt k), v.parities k, up) refl

  do_bh_key-press :
      Tracks axes n down s
      → down k ≡ false
      → let ps = map (shifted (n + 1)) axes in
        do_bh_key f k s ≡ record {
          cnt = cnt';
          axes = ps;
          reports = s.reports ++ report_axes f.multi ps ++ report_pressure f 1;
        }
  unfolding do_bh_key
  do_bh_key-press v press =
      rw (next_parity (s.cnt k), v.parities k, press, v.at_shift, move-shifted axes n) refl

  parities' : Tracks axes n down s → (i : ℕ) → is_down (cnt' i) ≡ toggled down k i
  parities' v i = ground (arith, next_parity (s.cnt k), v.parities k, v.parities i)

  pressed_on :
      (b : List Event) (c : List Event) (rest : List Event)
      → s.reports ++ b ++ c ++ rest ≡ s.reports ++ (b ++ (c ++ rest))
  pressed_on b c rest = append_assoc (s.reports ++ b) c rest ∙ append_assoc s.reports b (c ++ rest)

handled-reports :
    (f : Format) (axes : List Tspos) (ks : List ℕ) (n : ℕ) (down : ℕ → Bool) (s : Touch)
    → Tracks axes n down s
    → (handled (do_bh_key f) ks s).reports ≡ s.reports ++ events f axes n (downs down ks)
unfolding events downs
handled-reports f axes [] n down s v = sym (append-nil s.reports)
handled-reports f axes (k ∷ ks) n down s v = elim (Bool-cases (down k)) [
  | inl up ↦
      let t : Touch = record s {
        cnt = cnt' f axes n down s k;
        reports = s.reports ++ report_pressure f 0;
      } in
      let w : Tracks axes n (toggled down k) t = record {
        at_shift = v.at_shift;
        parities = parities' f axes n down s k v;
      } in
      rw up (
        ap (λ d. (handled (do_bh_key f) ks d).reports) (do_bh_key-release f axes n down s k v up)
        ∙ handled-reports f axes ks n (toggled down k) t w
        ∙ append_assoc s.reports (report_pressure f 0)
            (events f axes n (downs (toggled down k) ks)))
  | inr press ↦
      let ps = map (shifted (n + 1)) axes in
      let t : Touch = record {
        cnt = cnt' f axes n down s k;
        axes = ps;
        reports = s.reports ++ report_axes f.multi ps ++ report_pressure f 1;
      } in
      let w : Tracks axes (n + 1) (toggled down k) t = record {
        at_shift = refl;
        parities = parities' f axes n down s k v;
      } in
      rw press (
        ap (λ d. (handled (do_bh_key f) ks d).reports) (do_bh_key-press f axes n down s k v press)
        ∙ handled-reports f axes ks (n + 1) (toggled down k) t w
        ∙ pressed_on f axes n down s k (report_axes f.multi ps) (report_pressure f 1)
            (events f axes (n + 1) (downs (toggled down k) ks)))
]

not_moved : (axes : List Tspos) → inside axes ≡ true → axes ≡ map (shifted 0) axes
not_moved [] h = refl
not_moved (p ∷ ps) h =
    let x_eq : (p.x + 0) % 800 ≡ p.x = ground arith in
    let y_eq : (p.y + 0) % 480 ≡ p.y = ground arith in
    let rest = not_moved ps (ground arith) in rw (x_eq, y_eq, sym rest) refl

-- A reader of the events sees one frame for each key that was handled. When the
-- key goes down, all points have moved on by one, around the screen, and are pressed; when it is let
-- go, nothing is pressed.
frames_shown :
    (f : Format) (axes : List Tspos)
    → inside axes ≡ true
    → (ks : List ℕ)
    → decode nothing_read (handled (do_bh_key f) ks (start axes)).reports
      ≡ shown f axes 0 (downs (λ i. false) ks)
frames_shown f axes h ks =
    let w : Tracks axes 0 (λ i. false) (start axes) = record {
      at_shift = not_moved axes h;
      parities = λ i. refl;
    } in
    rw (handled-reports f axes ks 0 (λ i. false) (start axes) w)
      (decode-events f axes 0 (downs (λ i. false) ks) 0 0 false false (ground arith))

inside-shifted : (axes : List Tspos) (n : ℕ) → inside (map (shifted n) axes) ≡ true
inside-shifted [] n = refl
inside-shifted (p ∷ ps) n = ground (arith, inside-shifted ps n)

-- No frame has a point outside of the screen.
all_inside-shown :
    (f : Format) (axes : List Tspos) (n : ℕ) (bs : List Bool)
    → all_inside (shown f axes n bs) ≡ true
unfolding shown
all_inside-shown f axes n [] = refl
all_inside-shown f axes n (true ∷ bs) =
    ground (arith, inside-shifted axes (n + 1), all_inside-shown f axes (n + 1) bs)
all_inside-shown f axes n (false ∷ bs) = all_inside-shown f axes n bs

-- A reader of the events of `s` saw the frames of some keys, in the order in which they were handled.
abbrev pub Shows : Format → List Tspos → Touch → Type 0
Shows f axes s =
    let seen = decode nothing_read s.reports in
    (ks : List ℕ) × (seen ≡ shown f axes 0 (downs (λ i. false) ks)) × (all_inside seen ≡ true)

module _ (f : Format) (axes : List Tspos) (on_screen : inside axes ≡ true) where
  Handled-Shows : {s : Touch} → Handled (do_bh_key f) (start axes) s → Shows f axes s
  Handled-Shows {s} (ks, e) =
      let seen_eq : decode nothing_read s.reports ≡ shown f axes 0 (downs (λ i. false) ks) =
        rw e (frames_shown f axes on_screen ks) in
      (ks, seen_eq, rw seen_eq (all_inside-shown f axes 0 (downs (λ i. false) ks)))

  -- Points that start on the screen: whatever interrupts come and whenever the timer and the
  -- tasklet run, there are keys such that a reader of the events has seen one frame for each of them,
  -- in turn: when the key goes down, all points moved on by one, around the screen of 800 by 480,
  -- and pressed; when it is let go, nothing pressed. No point is ever outside of the screen.
  pub touch_frames : {s : Halves Touch} → Reach (do_bh_key f) (start axes) s → Shows f axes s.device
  touch_frames path = Handled-Shows (Reach-Handled (do_bh_key f) (start axes) path)

  -- The order of the older drivers, from any state that they reach, with the device as the keys `ks` left it:
  -- keys interrupt, key `k` last, then the tasklet runs and the timer runs out. Before that a reader of the
  -- events has seen the frames of `ks`, and after it those of `ks` and `k`; nothing is pending then, and
  -- the keys before `k` in the burst are lost.
  pub older_burst_shown :
      {s : Halves Touch} (burst : List ℕ) (k : ℕ)
      → Older.Reach (do_bh_key f) (start axes) s
      → let t =
          Older.expire (do_bh_key f) (Older.run_tasklet (Older.interrupts (burst ++ k ∷ []) s)) in
        let frames : List ℕ → List Frame = λ ks. shown f axes 0 (downs (λ i. false) ks) in
        (ks : List ℕ) × (s.device ≡ handled (do_bh_key f) ks (start axes))
        × (decode nothing_read s.device.reports ≡ frames ks)
        × (decode nothing_read t.device.reports ≡ frames (ks ++ k ∷ []))
        × (t.timer.pending ≡ false)
        × (t.task.pending ≡ false)
  older_burst_shown {s} burst k path =
      let (ks, e) = Older.Reach-Handled (do_bh_key f) (start axes) path in
      let served = Older.last_key_served (do_bh_key f) burst k s in
      let after : do_bh_key f k s.device ≡ handled (do_bh_key f) (ks ++ k ∷ []) (start axes) =
        ap (do_bh_key f k) e ∙ sym (handled-append (do_bh_key f) ks k (start axes)) in
      (
        ks,
        e,
        ap (λ d. decode nothing_read d.reports) e ∙ frames_shown f axes on_screen ks,
        ap (λ t. decode nothing_read t.device.reports) served
            ∙ ap (λ d. decode nothing_read d.reports) after
            ∙ frames_shown f axes on_screen (ks ++ k ∷ []),
        ap (λ t. t.timer.pending) served,
        ap (λ t. t.task.pending) served,
      )
