-- ===== src/Views/Columns.antt =====
-- The columns of the tables (`columns` of the pages in web/src/components) and what their cells show.
-- The looks of a cell, its handlers and the confirmation before them are left out.
use next_terminal.Base.{
  ℕ, Bool, true, false, not, ◌||◌, Option, none, some, List, [], ◌∷◌, keep, map, if◌then◌else◌,
}
use next_terminal.Base.Text.{Text, codes, text_eq}
use next_terminal.Layout.Permission.{Storage, has_menu}
use next_terminal.Assets.Fields.{Value, Fields, text_of}
use next_terminal.Assets.Form.{is}
use Prim.Native.String.{String}

-- A button is offered to those with one of its menus, or to all; an entry of a dropdown is disabled for
-- those without its menu.
pub record Action : Type 0 where
  pub menus : List Text
  pub label : Text
  pub disabled : Bool

-- A size is shown by `renderSize`, a relative time by `fromNow`, a date by `formatDate`, and a time that
-- something lasted by `differTime`, up to now without an end.
pub data Cell : Type 0 where
  blank : Cell
  value size dated relative : Option Value → Cell
  words : Text → Cell
  tag : (colour : Option Text) → Text → Cell
  tags : List Text → Cell
  badge : (status label : Text) → Cell
  link : (path : Text) → Option Value → Cell
  titled : Option Value → Cell → Cell
  described : Cell → Option Value → Cell
  toggle : (disabled checked : Bool) → Cell
  lasting : (start : Option Value) → (end : Option (Option Value)) → Cell
  offers : (buttons entries : List Action) → Cell

-- The cell is drawn from what is stored for the user, the row's index, the value and the row.
abbrev pub Draw : Type 0
Draw = Storage → ℕ → Option Value → Fields → Cell

pub record Column : Type 0 where
  pub title : Text
  pub data_index : Text
  pub sorter : Bool
  pub hide_in_search : Bool
  pub value_type : Option Text
  pub choices : List (Text × Text)
  pub draw : Draw

abbrev pub column : (title data_index : String) → Column
column title data_index = record {
  title = codes title;
  data_index = codes data_index;
  sorter = false;
  hide_in_search = false;
  value_type = none;
  choices = [];
  draw = λ storage i v row. value v;
}

abbrev pub sortable : Column → Column
sortable c = record c { sorter = true }

abbrev pub unsearched : Column → Column
unsearched c = record c { hide_in_search = true }

abbrev pub of_type : String → Column → Column
of_type t c = record c { value_type = some (codes t) }

abbrev pub choosing : List (Text × Text) → Column → Column
choosing choices c = record c { choices = choices }

abbrev pub drawn : Draw → Column → Column
drawn draw c = record c { draw = draw }

abbrev pub index_column : Column
index_column = of_type "indexBorder" (column "" "index")

abbrev pub option_column : Draw → Column
option_column draw = of_type "option" (drawn draw (column "操作" ""))

abbrev is_field : Option Text → Bool
is_field none = true
is_field (some t) = not (text_eq t (codes "indexBorder") || text_eq t (codes "option"))

-- The fields of the search form: the columns with a field that are not hidden there.
abbrev pub searched : List Column → List Text
searched [] = []
searched (c ∷ cs) =
    if is_field c.value_type
    then if c.hide_in_search then searched cs else c.data_index ∷ searched cs
    else searched cs

abbrev pub button : (menu label : String) → Action
button menu label = record { menus = codes menu ∷ []; label = codes label; disabled = false }

abbrev pub for_all : String → Action
for_all label = record { menus = []; label = codes label; disabled = false }

abbrev pub disabled_when : Bool → Action → Action
disabled_when b a = record a { disabled = b }

abbrev allowed : Storage → List Text → Bool
allowed storage [] = true
allowed storage (menu ∷ menus) = has_menu storage (menu ∷ menus)

-- The buttons in `Show`, and the entries of the dropdown, if there are any.
abbrev pub offered : Storage → List Action → List Action
offered storage actions = keep (λ action. allowed storage action.menus) actions

abbrev pub entries : Storage → List Action → List Action
entries storage actions =
    map (λ action. disabled_when (not (has_menu storage action.menus)) action) actions

abbrev pub buttons : List Action → Draw
buttons actions storage i v row = offers (offered storage actions) []

abbrev pub holds : Option Value → String → Bool
holds v t = is (text_of v) (codes t)
