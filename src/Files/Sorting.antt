-- ===== src/Files/Sorting.antt =====
-- The columns of the file manager and how its table is sorted by one
-- (web/src/components/devops/FileSystem.js). `localeCompare` is a parameter; the table sorts by a stable
-- sort, and takes the opposite sign for the descending order.
use next_terminal.Base.{
  ℕ, ◌≡◌, refl, Bool, true, false, not, Option, none, some, List, [], ◌∷◌, ltb, if◌then◌else◌,
}
use next_terminal.Base.Text.{Text, text_eq}
use next_terminal.Files.Listing.{Row, Sign, minus, nil, plus, insert, sort, dots}
use next_terminal.Files.Manager.{Rights, FileSystem}

-- A row with what only the table shows.
pub record Entry : Type 0 where
  pub row : Row
  pub size : ℕ
  pub mod_time : Text
  pub mode : Text

abbrev pub is_parent : Entry → Bool
is_parent entry = text_eq entry.row.key dots

-- The row of the parent directory is equal to any other.
abbrev pub apart : (Entry → Entry → Sign) → Entry → Entry → Sign
apart compare a b = if is_parent a then nil else if is_parent b then nil else compare a b

-- The sign of a difference.
abbrev signed : ℕ → ℕ → Sign
signed a b = if ltb a b then minus else if ltb b a then plus else nil

pub data Order : Type 0 where
  ascend descend : Order

pub data Sorter : Type 0 where
  by_name by_size by_mod_time : Sorter

module _ (locale_compare : Text → Text → Sign) where
  unfoldable pub name_sorter : Entry → Entry → Sign
  name_sorter = apart (λ a b. locale_compare a.row.item.name b.row.item.name)

  unfoldable pub size_sorter : Entry → Entry → Sign
  size_sorter = apart (λ a b. signed a.size b.size)

  unfoldable pub mod_time_sorter : Entry → Entry → Sign
  mod_time_sorter = apart (λ a b. locale_compare a.mod_time b.mod_time)

  unfoldable pub sorter_of : Sorter → Entry → Entry → Sign
  unfolding name_sorter size_sorter mod_time_sorter
  sorter_of by_name = name_sorter
  sorter_of by_size = size_sorter
  sorter_of by_mod_time = mod_time_sorter

  abbrev opposite : Sign → Sign
  opposite minus = plus
  opposite nil = nil
  opposite plus = minus

  abbrev ordered : Order → (Entry → Entry → Sign) → Entry → Entry → Sign
  ordered ascend compare a b = compare a b
  ordered descend compare a b = opposite (compare a b)

  unfoldable pub sorted_entries : Sorter → Order → List Entry → List Entry
  unfolding sorter_of sort
  sorted_entries sorter order entries = sort (ordered order (sorter_of sorter)) entries

  apart-parent :
      (compare : Entry → Entry → Sign) (order : Order) (top entry : Entry)
      → is_parent top ≡ true
      → ordered order (apart compare) top entry ≡ nil
  apart-parent compare ascend top entry e = rw e refl
  apart-parent compare descend top entry e = rw e refl

  sorter_of-parent :
      (sorter : Sorter) (order : Order) (top entry : Entry)
      → is_parent top ≡ true
      → ordered order (sorter_of sorter) top entry ≡ nil
  unfolding sorter_of name_sorter size_sorter mod_time_sorter
  sorter_of-parent by_name = apart-parent _
  sorter_of-parent by_size = apart-parent _
  sorter_of-parent by_mod_time = apart-parent _

  insert-top :
      (compare : Entry → Entry → Sign) (top : Entry) (entries : List Entry)
      → ((entry : Entry) → compare top entry ≡ nil)
      → insert compare top entries ≡ top ∷ entries
  unfolding insert
  insert-top compare top [] h = refl
  insert-top compare top (entry ∷ entries) h = rw (h entry) refl

  -- By whatever column and in whatever direction a table is sorted, the row of the parent directory that
  -- stands first stays first, and the others are sorted as if it were not there.
  pub sorted_entries-parent :
      (sorter : Sorter) (order : Order) (top : Entry) (entries : List Entry)
      → is_parent top ≡ true
      → sorted_entries sorter order (top ∷ entries) ≡ top ∷ sorted_entries sorter order entries
  unfolding sorted_entries sort
  sorted_entries-parent sorter order top entries e =
      insert-top (ordered order (sorter_of sorter)) top
        (sort (ordered order (sorter_of sorter)) entries)
        (λ entry. sorter_of-parent sorter order top entry e)

-- The size of a row, which a directory and a link do not show.
unfoldable pub size_cell : Entry → Option ℕ
size_cell entry =
    if not entry.row.item.is_dir
    then (if not entry.row.item.is_link then some entry.size else none)
    else none

-- `onChange` and `getCheckboxProps` of the selection
unfoldable pub select_rows : List Text → FileSystem → FileSystem
select_rows keys s = record s { selected_row_keys = keys }

unfoldable pub is_checkable : Row → Bool
is_checkable row = not row.disabled

-- The buttons over the table: to make a directory, to upload files, to upload a directory.
unfoldable pub header_enabled : Rights → List Bool
header_enabled rights = rights.upload ∷ rights.upload ∷ rights.upload ∷ []

unfoldable pub show_mkdir : FileSystem → FileSystem
show_mkdir s = record s { mkdir_visible = true }

unfoldable pub cancel_mkdir : FileSystem → FileSystem
cancel_mkdir s = record s { mkdir_visible = false }

unfoldable pub cancel_rename : FileSystem → FileSystem
cancel_rename s = record s { rename_visible = false }

unfoldable pub change_content : Text → FileSystem → FileSystem
change_content content s = record s { file_content = content }
