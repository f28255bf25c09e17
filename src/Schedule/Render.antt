-- ===== src/Schedule/Render.antt =====
-- The state of the table and its handlers (the component `DragWeekTime` of
-- web/src/dd/drag-weektime/DragWeekTime.js). `none` is an exception.
use next_terminal.Base.{
  ℕ, zero, suc, ◌+◌, ◌-◌, ◌*◌, Bool, true, false, not, ◌&&◌, ◌||◌, Option, none, some, List, [],
  ◌∷◌, map, length, get_elem?, set, ltb, leb, ◌==◌, if◌then◌else◌, ◌>>=◌,
}
use next_terminal.Base.Text.{Text, has_text, split}
use next_terminal.Schedule.Cells.{Item, Day, tilde}
use next_terminal.Schedule.Splicing.{comma, splicing}

-- A day of the week, 0 for Sunday, and its intervals; an absent value counts as the empty text.
pub record Period : Type 0 where
  pub key : ℕ
  pub value : Text

pub record Style : Type 0 where
  pub width : ℕ
  pub height : ℕ
  pub left : ℕ
  pub top : ℕ

-- The layout of the element under the mouse.
pub record Target : Type 0 where
  pub offset_left : ℕ
  pub offset_top : ℕ
  pub offset_width : ℕ
  pub offset_height : ℕ

-- `changes` are the calls of `onChange`, the last one first.
pub record Table : Type 0 where
  pub week_time_data : List Day
  pub selected : Bool
  pub mouse_down : Bool
  pub start_row : ℕ
  pub start_col : ℕ
  pub checked : Bool
  pub schedule_style : Style
  pub time_period : List Period
  pub has_on_change : Bool
  pub changes : List (List Period)

abbrev pub no_style : Style
no_style = record { width = 0; height = 0; left = 0; top = 0 }

-- Over the data of the module, which the handlers change in place: `week_data` before the first rendering,
-- and later what the table before left.
abbrev pub mount : List Day → Bool → Table
mount data' listens = record {
  week_time_data = data';
  selected = false;
  mouse_down = false;
  start_row = 0;
  start_col = 0;
  checked = false;
  schedule_style = no_style;
  time_period = [];
  has_on_change = listens;
  changes = [];
}

abbrev pub map_items : (Item → Item) → List Day → List Day
map_items f = map {A = Day} (λ day. record day { child = map f day.child })

-- The four bounds of `selectWeek`.
abbrev pub inside : ℕ × ℕ → ℕ × ℕ → ℕ → ℕ → Bool
inside (first_row, last_row) (first_col, last_col) row col =
    leb first_row row && (leb row last_row && (leb first_col col && leb col last_col))

unfoldable pub select_week : ℕ × ℕ → ℕ × ℕ → Bool → Table → Table
select_week rows cols mark t = record t {
  week_time_data =
      map_items
        (λ item.
          if inside rows cols item.row item.col then record item { checked = mark } else item)
        t.week_time_data;
}

unfoldable pub handle_change_time_period : List Period → Table → Table
handle_change_time_period periods t = record t {
  changes = if t.has_on_change then periods ∷ t.changes else t.changes;
  selected = ltb 0 (length periods);
  time_period = periods;
}

abbrev pub period_of : Day → Period
period_of day = record { key = if day.row == 6 then 0 else day.row + 1; value = splicing day.child }

unfoldable pub deal_time_period : Table → Table
unfolding handle_change_time_period
deal_time_period t = handle_change_time_period (map period_of t.week_time_data) t

unfoldable pub handle_clear_week_time : Table → Table
unfolding handle_change_time_period
handle_clear_week_time t = handle_change_time_period [] (record t {
  week_time_data = map_items (λ item. record item { checked = false }) t.week_time_data;
})

unfoldable pub handle_select_all_week_time : Table → Table
handle_select_all_week_time t = deal_time_period (record t {
  week_time_data = map_items (λ item. record item { checked = true }) t.week_time_data;
})

unfoldable pub handle_mouse_enter : Target → Item → Table → Table
handle_mouse_enter e item t =
    let old = t.schedule_style in
    let wide_back = (t.start_col - item.col + 1) * e.offset_width in
    let wide_on = (item.col - t.start_col + 1) * e.offset_width in
    let high_back = (t.start_row - item.row + 1) * e.offset_height in
    let high_on = (item.row - t.start_row + 1) * e.offset_height in
    record t {
      schedule_style =
          if not t.mouse_down
          then record old { left = e.offset_left; top = e.offset_top }
          else if leb item.col t.start_col && leb item.row t.start_row
          then record {
            width = wide_back;
            height = high_back;
            left = e.offset_left;
            top = e.offset_top;
          }
          else if leb t.start_col item.col && leb t.start_row item.row
          then record {
            width = wide_on;
            height = high_on;
            left =
                if item.col == t.start_col && ltb t.start_row item.row
                then e.offset_left
                else old.left;
            top =
                if ltb t.start_col item.col && item.row == t.start_row
                then e.offset_top
                else old.top;
          }
          else if ltb t.start_col item.col && ltb item.row t.start_row
          then record { width = wide_on; height = high_back; left = old.left; top = e.offset_top }
          else if ltb item.col t.start_col && ltb t.start_row item.row
          then record { width = wide_back; height = high_on; left = e.offset_left; top = old.top }
          else old;
    }

unfoldable pub handle_mouse_down : Item → Table → Table
handle_mouse_down item t = record t {
  checked = item.checked;
  mouse_down = true;
  start_row = item.row;
  start_col = item.col;
}

-- The call of `selectWeek` that `handleMouseUp` makes.
unfoldable pub select_dragged : Item → Table → Table
select_dragged item t =
    let mark = not t.checked in
    if leb item.col t.start_col && leb item.row t.start_row
    then select_week (item.row, t.start_row) (item.col, t.start_col) mark t
    else if leb t.start_col item.col && leb t.start_row item.row
    then select_week (t.start_row, item.row) (t.start_col, item.col) mark t
    else if ltb t.start_col item.col && ltb item.row t.start_row
    then select_week (item.row, t.start_row) (t.start_col, item.col) mark t
    else if ltb item.col t.start_col && ltb t.start_row item.row
    then select_week (t.start_row, item.row) (item.col, t.start_col) mark t
    else t

unfoldable pub handle_mouse_up : Item → Table → Table
handle_mouse_up item t =
    deal_time_period
      (record (select_dragged item t) { schedule_style = no_style; mouse_down = false })

-- `a1 * 2` reads a text as a number: the empty text is 0, and one that holds anything but digits
-- is taken not to be a number.
to_number : ℕ → Text → Option ℕ
to_number acc [] = some acc
to_number acc (c ∷ s) =
    if leb b'0' c && leb c b'9' then to_number (acc * 10 + (c - b'0')) s else none

-- `val.match(/30/)`
has_30 : Text → Bool
has_30 [] = false
has_30 (c ∷ []) = false
has_30 (c ∷ d ∷ s) = (c == b'3' && d == b'0') || has_30 (d ∷ s)

-- `val.substr(0, 2)` without a leading zero
hour_part : Text → Text
hour_part [] = []
hour_part (c ∷ []) = if c == b'0' then [] else c ∷ []
hour_part (c ∷ d ∷ s) = if c == b'0' then d ∷ [] else c ∷ d ∷ []

-- `none` is not a number.
unfoldable pub count_index : Text → Option ℕ
unfolding to_number has_30 hour_part
count_index val = do
  hour ← to_number 0 (hour_part val)
  some (hour * 2 + (if has_30 val then 1 else 0))

-- `weekTimeData[row].child[i].checked = true`
unfoldable pub check_cell : List Day → ℕ → ℕ → Option (List Day)
check_cell days row i = do
  day ← get_elem? days row
  item ← get_elem? day.child i
  some (set days row (record day { child = set day.child i (record item { checked = true }) }))

-- The loop of `renderTimePeriod`, by the rounds that are left.
unfoldable pub paint : ℕ → List Day → ℕ → ℕ → Option (List Day)
paint zero days row i = some days
paint (suc n) days row i = do next ← check_cell days row i; paint n next row (suc i)

-- A bound that is not a number ends the loop at once.
unfoldable pub paint_between : Option ℕ → Option ℕ → List Day → ℕ → Option (List Day)
paint_between (some start_val) (some end_val) days row =
    paint ((if end_val == 0 then 48 else end_val) - start_val) days row start_val
paint_between _ _ days row = some days

unfoldable pub render_time_period : ℕ → Text → List Day → Option (List Day)
unfolding paint_between
render_time_period key val days =
    let row = if key == 0 then 6 else key - 1 in
    do
      start ← get_elem? (split tilde val) 0
      end ← get_elem? (split tilde val) 1
      paint_between (count_index start) (count_index end) days row

unfoldable pub render_all : ℕ → List Text → List Day → Option (List Day)
render_all key [] days = some days
render_all key (val ∷ vals) days = do
  next ← render_time_period key val days
  render_all key vals next

unfoldable pub render_periods : List Period → List Day → Option (List Day)
render_periods [] days = some days
render_periods (p ∷ ps) days = do
  next ← (if has_text p.value then render_all p.key (split comma p.value) days else some days)
  render_periods ps next

unfoldable pub render_week_time : List Period → Table → Option Table
render_week_time periods t = do
  let cleared = handle_clear_week_time t
  days ← render_periods periods cleared.week_time_data
  some (deal_time_period (record cleared { week_time_data = days }))
