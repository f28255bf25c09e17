-- ===== src/Schedule/Highlight.antt =====
-- The rectangle that is drawn while the mouse drags (`handleMouseEnter` of
-- web/src/dd/drag-weektime/DragWeekTime.js), over cells of one size.
use next_terminal.Base.{
  ℕ, ◌+◌, ◌-◌, ◌*◌, ◌≡◌, ◌∙◌, true, min, leb, if◌then◌else◌, Bool-cases, leb→le, le_of_not_leb, inl,
  inr, arith,
}
use Prim.Native.Nat.{max}
use next_terminal.Schedule.Cells.{Item}
use next_terminal.Schedule.Render.{Style, Target, Table, handle_mouse_enter}

left_taken :
    (e : Target) (item : Item) (t : Table)
    → t.mouse_down ≡ true
    → (handle_mouse_enter e item t).schedule_style.left
      ≡ (if leb item.col t.start_col then e.offset_left else t.schedule_style.left)
unfolding handle_mouse_enter
left_taken e item t d = ground arith

top_taken :
    (e : Target) (item : Item) (t : Table)
    → t.mouse_down ≡ true
    → (handle_mouse_enter e item t).schedule_style.top
      ≡ (if leb item.row t.start_row then e.offset_top else t.schedule_style.top)
unfolding handle_mouse_enter
top_taken e item t d = ground arith

-- The nearer of two cells, by where a cell begins.
nearer :
    (start here : ℕ) (begins : ℕ → ℕ) (old : ℕ)
    → old ≡ begins start
    → (if leb here start then begins here else old) ≡ begins (min start here)
nearer start here begins old e = elim (Bool-cases (leb here start)) [
  | inl le ↦ let same : min start here ≡ here = omega (arith, leb→le here start le) in rw (le, same)
  | inr gt ↦
      let same : min start here ≡ start = omega (arith, le_of_not_leb here start gt) in
      rw (gt, same) e
]

module _ (x y w h : ℕ) where
  -- The place of a cell in a table whose first cell is at `x` and `y`.
  abbrev pub target_of : (row col : ℕ) → Target
  target_of row col = record {
    offset_left = x + col * w;
    offset_top = y + row * h;
    offset_width = w;
    offset_height = h;
  }

  -- The rectangle that spans two cells.
  abbrev pub spanning : (start_row start_col row col : ℕ) → Style
  spanning start_row start_col row col = record {
    width = (max start_col col - min start_col col + 1) * w;
    height = (max start_row row - min start_row row + 1) * h;
    left = x + min start_col col * w;
    top = y + min start_row row * h;
  }

  abbrev after : Item → Table → Style
  after item t = (handle_mouse_enter (target_of item.row item.col) item t).schedule_style

  width_of :
      (item : Item) (t : Table)
      → t.mouse_down ≡ true
      → (after item t).width ≡ (max t.start_col item.col - min t.start_col item.col + 1) * w
  unfolding handle_mouse_enter
  width_of item t d = ground arith

  height_of :
      (item : Item) (t : Table)
      → t.mouse_down ≡ true
      → (after item t).height ≡ (max t.start_row item.row - min t.start_row item.row + 1) * h
  unfolding handle_mouse_enter
  height_of item t d = ground arith

  left_of :
      (item : Item) (t : Table)
      → t.mouse_down ≡ true
      → t.schedule_style.left ≡ x + t.start_col * w
      → (after item t).left ≡ x + min t.start_col item.col * w
  left_of item t d l =
      left_taken (target_of item.row item.col) item t d
      ∙ nearer t.start_col item.col (λ k. x + k * w) t.schedule_style.left l

  top_of :
      (item : Item) (t : Table)
      → t.mouse_down ≡ true
      → t.schedule_style.top ≡ y + t.start_row * h
      → (after item t).top ≡ y + min t.start_row item.row * h
  top_of item t d p =
      top_taken (target_of item.row item.col) item t d
      ∙ nearer t.start_row item.row (λ k. y + k * h) t.schedule_style.top p

  -- In a table of cells of one size, where the drawn rectangle begins at the cell in which the drag
  -- began, entering a cell with the mouse down draws the rectangle that spans the two cells, in
  -- whichever direction.
  pub handle_mouse_enter-spanning :
      (item : Item) (t : Table)
      → t.mouse_down ≡ true
      → t.schedule_style.left ≡ x + t.start_col * w
      → t.schedule_style.top ≡ y + t.start_row * h
      → (handle_mouse_enter (target_of item.row item.col) item t).schedule_style
        ≡ spanning t.start_row t.start_col item.row item.col
  handle_mouse_enter-spanning item t d l p i = record {
    width = width_of item t d i;
    height = height_of item t d i;
    left = left_of item t d l i;
    top = top_of item t d p i;
  }
