-- ===== src/Schedule/Cells.antt =====
-- The cells of the table and their labels (`formatDate`, `createArr`, `formatWeekTime`, `data` of
-- web/src/dd/drag-weektime/DragWeekTime.js). `new Date(ms)` in the browser's zone is a parameter.
use next_terminal.Base.{
  ℕ, suc, ◌+◌, ◌-◌, ◌*◌, ◌/◌, Bool, true, false, Option, none, some, List, [], ◌∷◌, ◌++◌, map,
  length, get_or, drop, index_from, map_index, leb, ◌==◌, if◌then◌else◌,
}
use next_terminal.Base.Text.{Text, codes, split, decimal}

-- What the getters of a `Date` give; the month counts from 0.
pub record Date : Type 0 where
  pub full_year : ℕ
  pub month : ℕ
  pub date : ℕ
  pub hours : ℕ
  pub minutes : ℕ
  pub seconds : ℕ
  pub milliseconds : ℕ

-- The length of the run of `c` at the front, and what is behind it.
span : ℕ → Text → ℕ × Text
span c [] = (0, [])
span c (d ∷ s) = let (n, rest) = span c s in if d == c then (suc n, rest) else (0, d ∷ s)

-- The leftmost match of `c+`, or of `c` alone: what is before it, its length, what is behind it.
find_run : ℕ → Bool → Text → Option (Text × ℕ × Text)
find_run c many [] = none
find_run c many (d ∷ s) =
    let (n, rest) = span c s in
    if d == c
    then some (if many then ([], suc n, rest) else ([], 1, s))
    else elim (find_run c many s) [
      | none ↦ none
      | some (before, k, after) ↦ some (d ∷ before, k, after)
    ]

-- One round of the loop of `formatDate` over the letters.
replace_run : Text → ℕ × Bool × ℕ → Text
unfolding find_run span decimal
replace_run fmt (c, many, v) = elim (find_run c many fmt) [
  | none ↦ fmt
  | some (before, k, after) ↦
      before
      ++ ((if k == 1 then decimal v else drop (length (decimal v)) (codes "00" ++ decimal v))
          ++ after)
]

replace_all : Text → List (ℕ × Bool × ℕ) → Text
replace_all fmt [] = fmt
replace_all fmt (o ∷ os) = replace_all (replace_run fmt o) os

-- `year.substr(4 - k)`; a negative start counts from the end.
year_part : Text → ℕ → Text
year_part year k = if leb k 4 then drop (4 - k) year else drop (length year - (k - 4)) year

replace_year : ℕ → Text → Text
unfolding find_run span decimal year_part
replace_year year fmt = elim (find_run b'y' true fmt) [
  | none ↦ fmt
  | some (before, k, after) ↦ before ++ (year_part (decimal year) k ++ after)
]

unfoldable pub format_date : Date → Text → Text
unfolding replace_run replace_all replace_year
format_date d fmt = replace_all (replace_year d.full_year fmt) (
    (b'M', true, d.month + 1)
    ∷ (b'd', true, d.date)
    ∷ (b'h', true, d.hours)
    ∷ (b'm', true, d.minutes)
    ∷ (b's', true, d.seconds)
    ∷ (b'q', true, (d.month + 3) / 3)
    ∷ (b'S', false, d.milliseconds)
    ∷ [])

abbrev pub create_arr : ℕ → List ℕ
create_arr len = index_from 0 len

abbrev pub tilde : ℕ
tilde = b'~'

pub record Item : Type 0 where
  pub week : Text
  pub value : Text
  pub begin : Text
  pub end : Text
  pub row : ℕ
  pub col : ℕ
  pub checked : Bool

pub record Day : Type 0 where
  pub value : Text
  pub row : ℕ
  pub child : List Item

abbrev pub week_names : List Text
week_names =
    codes "星期一"
    ∷ codes "星期二"
    ∷ codes "星期三"
    ∷ codes "星期四"
    ∷ codes "星期五"
    ∷ codes "星期六"
    ∷ codes "星期日"
    ∷ []

module _ (clock : ℕ → Date) where
  unfoldable pub format_week_time : ℕ → Text
  unfolding format_date
  format_week_time col =
      let timestamp : ℕ = 1542384000000 in
      let beginstamp = timestamp + col * 1800000 in
      let endstamp = beginstamp + 1800000 in
      format_date (clock beginstamp) (codes "hh:mm")
      ++ (tilde ∷ format_date (clock endstamp) (codes "hh:mm"))

  -- One cell, with its mark. The label has two parts, so the defaults are not reached.
  abbrev pub item_at : Text → ℕ → ℕ → Bool → Item
  item_at week row col checked = record {
    week = week;
    value = format_week_time col;
    begin = get_or (split tilde (format_week_time col)) 0 [];
    end = get_or (split tilde (format_week_time col)) 1 [];
    row = row;
    col = col;
    checked = checked;
  }

  abbrev pub children : Text → ℕ → ℕ → List Item
  children ret row max = map (λ col. item_at ret row col false) (create_arr max)

  -- The constant `data`: seven days of 48 half hours, none of them checked.
  abbrev pub week_data : List Day
  week_data =
      map_index (λ index ret. record { value = ret; row = index; child = children ret index 48 }) 0
        week_names
