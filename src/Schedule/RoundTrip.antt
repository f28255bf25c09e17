-- ===== src/Schedule/RoundTrip.antt =====
-- Rendering the periods that the table reports gives the table back.
use next_terminal.Base.{
  ℕ, zero, suc, ◌+◌, ◌-◌, ◌%◌, ◌<◌, ◌≤◌, ◌≡◌, refl, ap, inl, inr, Option-cases, ◌∙◌, Bool, true,
  false, ◌&&◌, ◌||◌, Option, none, some, List, [], ◌∷◌, ◌++◌, map, get_or, index_from,
  if◌then◌else◌, if_true, ltb, leb, ◌==◌, All, arith, ◌>>=◌, ==_iff,
}
use mathlib.Core.Path.{ap₂}
use next_terminal.Base.Text.{Text, has_text, split}
use next_terminal.Schedule.Cells.{Date, Day, week_names, tilde}
use next_terminal.Schedule.Splicing.{comma, splicing}
use next_terminal.Schedule.Labels.{IsZone, label, all_below, all_below_sound, split_value}
use next_terminal.Schedule.Render.{
  Table, count_index, paint, render_time_period, render_all, render_periods, render_week_time,
  handle_clear_week_time, period_of, deal_time_period,
}
use next_terminal.Schedule.Grid.{Marks, grid, grid-ext, day_at, mark_from, paint-grid}
use next_terminal.Schedule.Selection.{handle_clear-grid}
use next_terminal.Schedule.Intervals.{
  Interval, covers, covered, IsProper, covered-runs_from, runs_from-IsProper,
}
use next_terminal.Schedule.Written.{
  written, all_written, joined, day_runs, split-joined, splicing-joined,
}

is_index : Option ℕ → ℕ → Bool
is_index none k = false
is_index (some n) k = n == k

is_index_sound : (o : Option ℕ) (k : ℕ) → is_index o k ≡ true → o ≡ some k
unfolding is_index
is_index_sound none k h = cc
is_index_sound (some n) k h = ap some ((==_iff n k).0 h)

index_table : all_below 48 (λ k. is_index (count_index (label k)) k) ≡ true
unfolding all_below is_index count_index
index_table = refl

-- `countIndex` reads a label back as its half hour.
pub count_index-label : (k : ℕ) → k < 48 → count_index (label k) ≡ some k
count_index-label k h =
    is_index_sound (count_index (label k)) k
      (all_below_sound 48 (λ k. is_index (count_index (label k)) k) k index_table h)

abbrev pub key_of : ℕ → ℕ
key_of r = if r == 6 then 0 else r + 1

abbrev pub row_of : ℕ → ℕ
row_of key = if key == 0 then 6 else key - 1

abbrev with_interval : ℕ → Interval → Marks → Marks
with_interval row iv m r c = (r == row && covers c iv) || m r c

render_time_period_of :
    (key : ℕ) (val a b : Text) (x y : ℕ) (days : List Day)
    → split tilde val ≡ a ∷ b ∷ []
    → count_index a ≡ some x
    → count_index b ≡ some y
    → render_time_period key val days ≡ paint ((if y == 0 then 48 else y) - x) days (row_of key) x
unfolding render_time_period
render_time_period_of key val a b x y days p q r = rw (p, q, r)

render_all-append :
    (key : ℕ) (xs ys : List Text) (days : List Day)
    → render_all key (xs ++ ys) days ≡ (render_all key xs days >>= render_all key ys)
unfolding render_all
render_all-append key [] ys days = refl
render_all-append key (x ∷ xs) ys days = elim (Option-cases (render_time_period key x days)) [
  | inl e ↦ rw e
  | inr (next, e) ↦ rw e (render_all-append key xs ys next)
]

abbrev with_covered : ℕ → List Interval → Marks → Marks
with_covered row ivs m r c = (r == row && covered ivs c) || m r c

abbrev with_days : ℕ → ℕ → Marks → Marks → Marks
with_days i n m m' r c = (leb i r && (ltb r (i + n) && (ltb c 48 && m r c))) || m' r c

has_text-append : (s : Text) (c : ℕ) (t : Text) → has_text (s ++ c ∷ t) ≡ true
has_text-append [] c t = refl
has_text-append (d ∷ s) c t = refl

has_text-joined : (iv : Interval) (ivs : List Interval) → has_text (joined (iv ∷ ivs)) ≡ true
has_text-joined iv [] = refl
has_text-joined iv (iv' ∷ ivs) = has_text-append (joined (iv' ∷ ivs)) comma (written iv)

module _ (clock : ℕ → Date) where
  render_time_period-written :
      (r : ℕ) (iv : Interval) (m : Marks)
      → r < 7
      → IsProper iv
      → render_time_period (key_of r) (written iv) (grid clock m)
        ≡ some (grid clock (with_interval r iv m))
  render_time_period-written r (s, e) m l p =
      let rounds : (if e % 48 == 0 then 48 else e % 48) - s ≡ e - s = ground arith in
      let row : row_of (key_of r) ≡ r = ground arith in
      render_time_period_of (key_of r) (written (s, e)) (label s) (label (e % 48)) s (e % 48)
        (grid clock m) (split_value s (e % 48) (omega arith) (omega arith))
        (count_index-label s (omega arith)) (count_index-label (e % 48) (omega arith))
      ∙ ap₂ (λ n k. paint n (grid clock m) k s) rounds row
      ∙ paint-grid clock (e - s) m r s l (omega arith)
      ∙ ap some (
          grid-ext clock (mark_from r s (e - s) m) (with_interval r (s, e) m)
            (λ k c _ _. ground arith))

  render_all-all_written :
      (r : ℕ) (ivs : List Interval) (m : Marks)
      → r < 7
      → All IsProper ivs
      → render_all (key_of r) (all_written ivs) (grid clock m)
        ≡ some (grid clock (with_covered r ivs m))
  unfolding render_all
  render_all-all_written r [] m l p =
      ap some (grid-ext clock m (with_covered r [] m) (λ k c _ _. ground arith))
  render_all-all_written r (iv ∷ ivs) m l p =
      render_all-append (key_of r) (all_written ivs) (written iv ∷ []) (grid clock m)
      ∙ ap (λ o. o >>= render_all (key_of r) (written iv ∷ []))
          (render_all-all_written r ivs m l p.1)
      ∙ ap (λ o. o >>= render_all (key_of r) [])
          (render_time_period-written r iv (with_covered r ivs m) l p.0)
      ∙ ap some (
          grid-ext clock (with_interval r iv (with_covered r ivs m)) (with_covered r (iv ∷ ivs) m)
            (λ k c _ _. ground arith))

  -- One day's text, rendered into any table.
  render_day : ℕ → Text → List Day → Option (List Day)
  render_day key value days =
      if has_text value then render_all key (split comma value) days else some days

  render_day-joined :
      (r : ℕ) (ivs : List Interval) (m : Marks)
      → r < 7
      → All IsProper ivs
      → render_day (key_of r) (joined ivs) (grid clock m) ≡ some (grid clock (with_covered r ivs m))
  unfolding render_day
  render_day-joined r [] m l p =
      ap some (grid-ext clock m (with_covered r [] m) (λ k c _ _. ground arith))
  render_day-joined r (iv ∷ ivs) m l p =
      if_true _ _ (has_text-joined iv ivs)
      ∙ ap (λ vals. render_all (key_of r) vals (grid clock m)) (split-joined iv ivs p)
      ∙ render_all-all_written r (iv ∷ ivs) m l p

  -- What `renderWeekTime` does behind its loop.
  finish : Table → List Day → Option Table
  finish t days =
      some (deal_time_period (record (handle_clear_week_time t) { week_time_data = days }))

  module _ (zone : IsZone 480 clock) where
    render_day-period_of :
        (r : ℕ) (m m' : Marks)
        → r < 7
        → render_day (key_of r) (splicing (day_at clock m r).child) (grid clock m')
          ≡ some (grid clock (with_covered r (day_runs (m r)) m'))
    render_day-period_of r m m' l =
        ap (λ value. render_day (key_of r) value (grid clock m'))
          (splicing-joined clock zone (get_or week_names r []) r m)
        ∙ render_day-joined r (day_runs (m r)) m' l
            (runs_from-IsProper (m r) 0 48 false [] (omega arith) tt tt)

    render_periods-grid :
        (i n : ℕ) (m m' : Marks)
        → i + n ≤ 7
        → render_periods (map period_of (map (day_at clock m) (index_from i n))) (grid clock m')
          ≡ some (grid clock (with_days i n m m'))
    unfolding render_periods render_day
    render_periods-grid i zero m m' l =
        ap some (grid-ext clock m' (with_days i 0 m m') (λ r c _ _. ground arith))
    render_periods-grid i (suc n) m m' l =
        ap (λ o. o >>= render_periods (map period_of (map (day_at clock m) (index_from (suc i) n))))
          (render_day-period_of i m m' (omega arith))
        ∙ render_periods-grid (suc i) n m (with_covered i (day_runs (m i)) m') (omega arith)
        ∙ ap some (
            grid-ext clock (with_days (suc i) n m (with_covered i (day_runs (m i)) m'))
              (with_days i (suc n) m m')
              (λ r c p q.
                ground (arith, covered-runs_from (m i) 0 48 false [] (omega arith) tt tt c)))

    -- In the zone UTC+8, rendering the periods that a table with the marks m reports, into any
    -- table that shows marks of its own, succeeds and gives a table with the marks m that reports
    -- the same periods again.
    pub render_week_time-periods :
        (m m' : Marks) (t : Table)
        → t.week_time_data ≡ grid clock m'
        → (after : Table) × (render_week_time (map period_of (grid clock m)) t ≡ some after)
          × (after.week_time_data ≡ grid clock m)
          × (after.time_period ≡ map period_of (grid clock m))
    unfolding render_week_time finish deal_time_period
    render_week_time-periods m m' t e =
        let cleared = handle_clear_week_time t in
        (
          deal_time_period (record cleared { week_time_data = grid clock m }),
          ap (λ days. render_periods (map period_of (grid clock m)) days >>= finish t)
                (handle_clear-grid clock t m' e).0
              ∙ ap (λ o. o >>= finish t) (render_periods-grid 0 7 m (λ r c. false) (omega arith))
              ∙ ap (λ days. finish t days)
                  (grid-ext clock (with_days 0 7 m (λ r c. false)) m (λ r c p q. ground arith)),
          refl,
          refl,
        )
