-- ===== src/Schedule/Grid.antt =====
-- The table as a function that marks half hours: the view that the handlers are specified in.
use next_terminal.Base.{
  ℕ, zero, suc, ◌+◌, ◌<◌, ◌≤◌, ◌≡◌, refl, ap, ◌∙◌, Bool, true, false, ◌&&◌, ◌||◌, some, List, [],
  ◌∷◌, map, get_or, get_elem?, set, ltb, leb, ◌==◌, if◌then◌else◌, index_from, arith,
  map-index_from_ext, get_elem?-map-index_from, set-map-index_from, if_eq,
}
use next_terminal.Base.Text.{Text}
use next_terminal.Schedule.Cells.{Date, Item, Day, item_at, week_names, week_data}
use next_terminal.Schedule.Render.{map_items, check_cell, paint}
use mathlib.Core.Path.{ap₂}

abbrev pub Marks : Type 0
Marks = ℕ → ℕ → Bool

-- One more half hour.
abbrev pub mark_one : ℕ → ℕ → Marks → Marks
mark_one row i m r c = (r == row && c == i) || m r c

-- A run of half hours.
abbrev pub mark_from : ℕ → ℕ → ℕ → Marks → Marks
mark_from row i n m r c = (r == row && (leb i c && ltb c (i + n))) || m r c

module _ (clock : ℕ → Date) where
  abbrev pub cell : Text → ℕ → Marks → ℕ → Item
  cell week r m c = item_at clock week r c (m r c)

  abbrev pub day_at : Marks → ℕ → Day
  day_at m r = record {
    value = get_or week_names r [];
    row = r;
    child = map (cell (get_or week_names r []) r m) (index_from 0 48);
  }

  -- The data of the table whose checked half hours are those of `m`.
  abbrev pub grid : Marks → List Day
  grid m = map (day_at m) (index_from 0 7)

  pub week_data-grid : week_data clock ≡ grid (λ r c. false)
  week_data-grid = refl

  pub day_at-ext :
      (m m' : Marks) (r : ℕ) → ((c : ℕ) → c < 48 → m r c ≡ m' r c) → day_at m r ≡ day_at m' r
  day_at-ext m m' r h =
      ap {A = List Item}
        (λ items. record { value = get_or week_names r []; row = r; child = items })
        (map-index_from_ext (cell (get_or week_names r []) r m) (cell (get_or week_names r []) r m')
          0 48 (λ c p q. ap (item_at clock (get_or week_names r []) r c) (h c q)))

  pub grid-ext : (m m' : Marks) → ((r c : ℕ) → r < 7 → c < 48 → m r c ≡ m' r c) → grid m ≡ grid m'
  grid-ext m m' h =
      map-index_from_ext (day_at m) (day_at m') 0 7 (λ r p q. day_at-ext m m' r (λ c s. h r c q s))

  -- A change of every item, stated by what it does to a mark.
  map-cell :
      (g : Item → Item) (h : ℕ → Bool → Bool) (week : Text) (r : ℕ) (m : Marks)
      → ((c : ℕ) (b : Bool) → g (item_at clock week r c b) ≡ item_at clock week r c (h c b))
      → (i n : ℕ)
      → map g (map (cell week r m) (index_from i n))
        ≡ map (cell week r (λ r c. h c (m r c))) (index_from i n)
  map-cell g h week r m e i zero = refl
  map-cell g h week r m e i (suc n) = ap₂ ◌∷◌ (e i (m r i)) (map-cell g h week r m e (suc i) n)

  map_day : (Item → Item) → Day → Day
  map_day g day = record day { child = map g day.child }

  map-day_at :
      (g : Item → Item) (h : ℕ → ℕ → Bool → Bool) (m : Marks)
      → ((week : Text) (r c : ℕ) (b : Bool)
          → g (item_at clock week r c b) ≡ item_at clock week r c (h r c b))
      → (i n : ℕ)
      → map_items g (map (day_at m) (index_from i n))
        ≡ map (day_at (λ r c. h r c (m r c))) (index_from i n)
  map-day_at g h m e i zero = refl
  map-day_at g h m e i (suc n) =
      let week = get_or week_names i [] in
      ap₂ ◌∷◌
        (ap {A = List Item} (λ items. record { value = week; row = i; child = items })
          (map-cell g (h i) week i m (e week i) 0 48))
        (map-day_at g h m e (suc i) n)

  pub map_items-grid :
      (g : Item → Item) (h : ℕ → ℕ → Bool → Bool) (m : Marks)
      → ((week : Text) (r c : ℕ) (b : Bool)
          → g (item_at clock week r c b) ≡ item_at clock week r c (h r c b))
      → map_items g (grid m) ≡ grid (λ r c. h r c (m r c))
  map_items-grid g h m e = map-day_at g h m e 0 7

  checked_day : Marks → ℕ → ℕ → Day
  checked_day m row i = record (day_at m row) {
    child = set (day_at m row).child i (cell (get_or week_names row []) row (λ r c. true) i);
  }

  checked_day-mark_one :
      (m : Marks) (row i : ℕ) → checked_day m row i ≡ day_at (mark_one row i m) row
  unfolding checked_day
  checked_day-mark_one m row i =
      let week = get_or week_names row [] in
      ap {A = List Item} (λ items. record { value = week; row = row; child = items })
        (set-map-index_from (cell week row m) 0 48 i i (cell week row (λ r c. true) i) (omega arith)
          ∙ map-index_from_ext
              (λ c. if c == i then cell week row (λ r c. true) i else cell week row m c)
              (cell week row (mark_one row i m)) 0 48 (λ c p q. ground arith))

  other_days :
      (m : Marks) (row i r : ℕ)
      → (if r == row then checked_day m row i else day_at m r) ≡ day_at (mark_one row i m) r
  other_days m row i r =
      if_eq (r == row) (checked_day m row i) (day_at m r) (day_at (mark_one row i m) r)
        (λ same.
          checked_day-mark_one m row i
          ∙ ap (day_at (mark_one row i m)) (let e : row ≡ r = ground arith in e))
        (λ other. day_at-ext m (mark_one row i m) r (λ c _. ground arith))

  check_cell_of :
      (days : List Day) (row i : ℕ) (day : Day) (item : Item)
      → get_elem? days row ≡ some day
      → get_elem? day.child i ≡ some item
      → check_cell days row i
        ≡ some
            (set days row (record day { child = set day.child i (record item { checked = true }) }))
  unfolding check_cell
  check_cell_of days row i day item p q = rw (p, q)

  pub check_cell-grid :
      (m : Marks) (row i : ℕ)
      → row < 7
      → i < 48
      → check_cell (grid m) row i ≡ some (grid (mark_one row i m))
  unfolding checked_day
  check_cell-grid m row i p q =
      let week = get_or week_names row [] in
      check_cell_of (grid m) row i (day_at m row) (cell week row m i)
        (get_elem?-map-index_from (day_at m) 0 7 row row p (omega arith))
        (get_elem?-map-index_from (cell week row m) 0 48 i i q (omega arith))
      ∙ ap some (
          set-map-index_from (day_at m) 0 7 row row (checked_day m row i) (omega arith)
          ∙ map-index_from_ext (λ r. if r == row then checked_day m row i else day_at m r)
              (day_at (mark_one row i m)) 0 7 (λ r _ _. other_days m row i r))

  -- The loop of `renderTimePeriod` stays within the table and marks its half hours.
  pub paint-grid :
      (n : ℕ) (m : Marks) (row i : ℕ)
      → row < 7
      → i + n ≤ 48
      → paint n (grid m) row i ≡ some (grid (mark_from row i n m))
  unfolding paint
  paint-grid zero m row i p q = ap some (grid-ext m (mark_from row i 0 m) (λ r c _ _. ground arith))
  paint-grid (suc n) m row i p q = rw (check_cell-grid m row i p (omega arith)) (
      paint-grid n (mark_one row i m) row (suc i) p (omega arith)
      ∙ ap some (
          grid-ext (mark_from row (suc i) n (mark_one row i m)) (mark_from row i (suc n) m)
            (λ r c _ _. ground arith)))
