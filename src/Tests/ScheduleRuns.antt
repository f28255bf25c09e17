-- ===== src/Tests/ScheduleRuns.antt =====
-- The week's table (web/src/dd/drag-weektime/DragWeekTime.js) eight hours ahead of UTC.
use next_terminal.Base.{
  ◌*◌, ℕ, ◌+◌, ◌/◌, ◌%◌, ◌<◌, ◌≡◌, refl, ◌↔◌, true, false, ◌&&◌, not, some, [], map, leb, ltb, ◌==◌,
}
use next_terminal.Schedule.Cells.{Date, Item, item_at}
use next_terminal.Schedule.Labels.{IsZone}
use next_terminal.Schedule.Cells.{week_data}
use next_terminal.Schedule.Grid.{Marks, grid, week_data-grid}
use next_terminal.Schedule.Render.{
  Table, mount, no_style, period_of, handle_mouse_enter, handle_mouse_up, render_week_time,
}
use next_terminal.Schedule.Highlight.{target_of, spanning, handle_mouse_enter-spanning}
use next_terminal.Schedule.Selection.{dragged, Shows, handle_mouse_up-dragged}
use next_terminal.Schedule.RoundTrip.{render_week_time-periods}
use next_terminal.Schedule.Zones.{begin_index, begin_index_iff}

abbrev clock : ℕ → Date
clock ms = record {
  full_year = 2018;
  month = 10;
  date = 17;
  hours = (ms / 60000 + 480) / 60 % 24;
  minutes = (ms / 60000 + 480) % 60;
  seconds = 0;
  milliseconds = 0;
}

abbrev zone : IsZone 480 clock
zone = record { hours_of = λ ms. refl; minutes_of = λ ms. refl }

abbrev no_marks : Marks
no_marks r c = false

-- Tuesday, from nine to noon
abbrev morning : Marks
morning r c = r == 1 && (leb 18 c && ltb c 24)

-- A drag from the sixth row and the tenth column.
abbrev dragging : Table
dragging = record (mount (week_data clock) true) { mouse_down = true; start_row = 5; start_col = 9 }

abbrev released : Item
released = item_at clock [] 2 30 false

handle_mouse_up-dragged_example :
    Shows clock
      (dragged 5 9 2 30 (not dragging.checked) no_marks)
      dragging
      (handle_mouse_up released dragging)
    × ((handle_mouse_up released dragging).mouse_down ≡ false)
    × ((handle_mouse_up released dragging).schedule_style ≡ no_style)
handle_mouse_up-dragged_example =
    handle_mouse_up-dragged clock released dragging no_marks (week_data-grid clock)

render_week_time-periods_example :
    (after : Table) × (render_week_time
        (map period_of (grid clock morning))
        (mount (week_data clock) true)
      ≡ some after)
    × (after.week_time_data ≡ grid clock morning)
    × (after.time_period ≡ map period_of (grid clock morning))
render_week_time-periods_example =
    render_week_time-periods clock zone morning no_marks (mount (week_data clock) true)
      (week_data-grid clock)

begin_index_iff_example : ((col : ℕ) → col < 48 → begin_index clock col ≡ some col) ↔ (16 % 48 ≡ 16)
begin_index_iff_example = begin_index_iff 16 clock zone

-- The drag has begun at a cell of 20 by 30 pixels in a table at 60 and 80, and has been there since.
abbrev drawn : Table
drawn = record dragging {
  schedule_style = record { width = 0; height = 0; left = 60 + 9 * 20; top = 80 + 5 * 30 };
}

handle_mouse_enter-spanning_example :
    (handle_mouse_enter (target_of 60 80 20 30 2 30) released drawn).schedule_style
    ≡ spanning 60 80 20 30 5 9 2 30
handle_mouse_enter-spanning_example =
    handle_mouse_enter-spanning 60 80 20 30 released drawn refl refl refl
