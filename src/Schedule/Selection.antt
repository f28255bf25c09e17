-- ===== src/Schedule/Selection.antt =====
-- What dragging, clearing and selecting all do to the marks of the table, and what they report.
use next_terminal.Base.{
  ℕ, ◌≡◌, refl, ap, ◌∙◌, Bool, true, false, not, ◌&&◌, [], ◌∷◌, map, length, ltb, leb,
  if◌then◌else◌, min, arith,
}
use Prim.Native.Nat.{max}
use next_terminal.Schedule.Cells.{Date, Item}
use next_terminal.Schedule.Render.{
  Period, Table, no_style, map_items, inside, select_week, select_dragged, period_of,
  deal_time_period, handle_clear_week_time, handle_select_all_week_time, handle_mouse_up,
}
use next_terminal.Schedule.Grid.{Marks, grid, map_items-grid, grid-ext}

-- Between two corners, whichever of them comes first.
abbrev pub between : ℕ → ℕ → ℕ → Bool
between a b x = leb (min a b) x && leb x (max a b)

-- The marks after a drag from one cell to another.
abbrev pub dragged : (start_row start_col row col : ℕ) → Bool → Marks → Marks
dragged start_row start_col row col mark m r c =
    if between start_row row r && between start_col col c then mark else m r c

module _ (clock : ℕ → Date) where
  select_week-grid :
      (rows cols : ℕ × ℕ) (mark : Bool) (t : Table) (m : Marks)
      → t.week_time_data ≡ grid clock m
      → (select_week rows cols mark t).week_time_data
        ≡ grid clock (λ r c. if inside rows cols r c then mark else m r c)
  unfolding select_week
  select_week-grid rows cols mark t m e =
      let f = λ (item : Item).
        if inside rows cols item.row item.col then record item { checked = mark } else item in
      ap (map_items f) e
      ∙ map_items-grid clock f (λ r c b. if inside rows cols r c then mark else b) m
          (λ week r c b. ground arith)

  -- The four branches are one selection between the corners.
  select_dragged-select_week :
      (item : Item) (t : Table)
      → select_dragged item t
        ≡ select_week
            (min t.start_row item.row, max t.start_row item.row)
            (min t.start_col item.col, max t.start_col item.col)
            (not t.checked)
            t
  unfolding select_dragged
  select_dragged-select_week item t = ground arith

  select_dragged-grid :
      (item : Item) (t : Table) (m : Marks)
      → t.week_time_data ≡ grid clock m
      → (select_dragged item t).week_time_data
        ≡ grid clock (dragged t.start_row t.start_col item.row item.col (not t.checked) m)
  select_dragged-grid item t m e =
      ap (λ u. u.week_time_data) (select_dragged-select_week item t)
      ∙ select_week-grid _ _ (not t.checked) t m e
      ∙ grid-ext clock
          (λ r c.
            if inside (min t.start_row item.row, max t.start_row item.row)
              (min t.start_col item.col, max t.start_col item.col) r c
            then not t.checked
            else m r c)
          (dragged t.start_row t.start_col item.row item.col (not t.checked) m)
          (λ r c _ _. ground arith)

  -- What a handler leaves: the data, and the report of it to `onChange`.
  pub record Shows (m : Marks) (before after : Table) : Type 0 where
    pub data_is : after.week_time_data ≡ grid clock m
    pub periods_are : after.time_period ≡ map period_of (grid clock m)
    pub reported : after.changes ≡ (
        if before.has_on_change
        then map period_of (grid clock m) ∷ before.changes
        else before.changes)
    pub chosen : after.selected ≡ true

  deal_time_period-Shows :
      (before t : Table) (m : Marks)
      → t.week_time_data ≡ grid clock m
      → t.changes ≡ before.changes
      → t.has_on_change ≡ before.has_on_change
      → Shows m before (deal_time_period t)
  unfolding deal_time_period
  deal_time_period-Shows before t m e p q =
      let days = ap (map period_of) e in
      record {
        data_is = e;
        periods_are = days;
        reported = rw (p, q, days);
        chosen = ap (λ ps. ltb 0 (length {A = Period} ps)) days;
      }

  select_dragged-changes :
      (item : Item) (t : Table)
      → ((select_dragged item t).changes ≡ t.changes)
        × ((select_dragged item t).has_on_change ≡ t.has_on_change)
  unfolding select_week
  select_dragged-changes item t =
      let e = select_dragged-select_week item t in
      (ap (λ u. u.changes) e, ap (λ u. u.has_on_change) e)

  -- Releasing the mouse sets every half hour of the rectangle between the two cells, whichever
  -- corner the drag began in, to the opposite of the first cell's mark and leaves the others; the
  -- table reports the new periods, and the drag is over.
  pub handle_mouse_up-dragged :
      (item : Item) (t : Table) (m : Marks)
      → t.week_time_data ≡ grid clock m
      → Shows
          (dragged t.start_row t.start_col item.row item.col (not t.checked) m)
          t
          (handle_mouse_up item t)
        × ((handle_mouse_up item t).mouse_down ≡ false)
        × ((handle_mouse_up item t).schedule_style ≡ no_style)
  unfolding handle_mouse_up deal_time_period
  handle_mouse_up-dragged item t m e =
      let kept = select_dragged-changes item t in
      (
        deal_time_period-Shows t
            (record (select_dragged item t) { schedule_style = no_style; mouse_down = false })
            (dragged t.start_row t.start_col item.row item.col (not t.checked) m)
            (select_dragged-grid item t m e) kept.0 kept.1,
        refl,
        refl,
      )

  -- Clearing leaves no mark, selects nothing and reports no period.
  pub handle_clear-grid :
      (t : Table) (m : Marks)
      → t.week_time_data ≡ grid clock m
      → ((handle_clear_week_time t).week_time_data ≡ grid clock (λ r c. false))
        × ((handle_clear_week_time t).time_period ≡ [])
        × ((handle_clear_week_time t).selected ≡ false)
        × ((handle_clear_week_time t).has_on_change ≡ t.has_on_change)
  unfolding handle_clear_week_time
  handle_clear-grid t m e = (
    ap (map_items (λ item. record item { checked = false })) e
        ∙ map_items-grid clock (λ item. record item { checked = false }) (λ r c b. false) m
            (λ week r c b. refl),
    refl,
    refl,
    refl,
  )

  handle_select_all-Shows :
      (t : Table) (m : Marks)
      → t.week_time_data ≡ grid clock m
      → Shows (λ r c. true) t (handle_select_all_week_time t)
  unfolding handle_select_all_week_time
  handle_select_all-Shows t m e =
      let f = λ (item : Item). record item { checked = true } in
      deal_time_period-Shows t (record t { week_time_data = map_items f t.week_time_data })
        (λ r c. true)
        (ap (map_items f) e ∙ map_items-grid clock f (λ r c b. true) m (λ week r c b. refl)) refl
        refl
