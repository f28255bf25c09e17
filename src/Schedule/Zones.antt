-- ===== src/Schedule/Zones.antt =====
-- In which time zones the labels of the cells are right.
use next_terminal.Base.{ℕ, ◌+◌, ◌*◌, ◌%◌, ◌<◌, ◌≡◌, ◌∙◌, ◌↔◌, ap, Option, some, [], get_or, arith}
use next_terminal.Base.Text.{split}
use next_terminal.Schedule.Cells.{Date, format_week_time, tilde}
use next_terminal.Schedule.Labels.{IsZone, split-format_week_time}
use next_terminal.Schedule.Render.{count_index}
use next_terminal.Schedule.RoundTrip.{count_index-label}

-- The half hour that a column's begin label names.
abbrev pub begin_index : (ℕ → Date) → ℕ → Option ℕ
begin_index clock col = count_index (get_or (split tilde (format_week_time clock col)) 0 [])

module _ (z : ℕ) (clock : ℕ → Date) (zone : IsZone (30 * z) clock) where
  -- `z` half hours ahead of UTC, the label of a column names the half hour 32 + z further on.
  pub begin_index_lem : (col : ℕ) → begin_index clock col ≡ some ((col + z + 32) % 48)
  begin_index_lem col =
      ap (λ ps. count_index (get_or ps 0 [])) (split-format_week_time z clock zone col)
      ∙ count_index-label ((col + z + 32) % 48) (omega arith)

  -- In a zone of a whole number of half hours, the labels of all 48 columns name their own half
  -- hours exactly when the zone is eight hours ahead of UTC.
  pub begin_index_iff : ((col : ℕ) → col < 48 → begin_index clock col ≡ some col) ↔ (z % 48 ≡ 16)
  begin_index_iff = (
    λ right.
        let first : (0 + z + 32) % 48 ≡ 0 = cc (begin_index_lem 0, right 0 (omega arith)) in
        omega arith,
    λ e col h. begin_index_lem col ∙ ap some (omega arith),
  )
