-- ===== src/Batch/Waiting.antt =====
-- The assets that wait for a command (web/src/components/devops/BatchCommand.js).
use next_terminal.Base.{
  ℕ, suc, Bool, false, not, none, some, List, [], ◌∷◌, ◌++◌, if◌then◌else◌, ◌==◌, any, keep,
  get_elem?,
}
use next_terminal.Base.Text.{Text, text_eq, split}
use next_terminal.Tables.Paging.{comma}

pub record Asset : Type 0 where
  pub id : Text
  pub name : Text

-- `row.id === selectedRow.id`
abbrev pub same : Asset → Asset → Bool
same selected row = text_eq row.id selected.id

unfoldable pub add_row : Asset → List Asset → List Asset
add_row selected rows = if any (same selected) rows then rows else rows ++ selected ∷ []

unfoldable pub add_rows : List Asset → List Asset → List Asset
unfolding add_row
add_rows [] rows = rows
add_rows (selected ∷ selection) rows = add_rows selection (add_row selected rows)

unfoldable pub remove_rows : List Asset → List Asset → List Asset
remove_rows [] rows = rows
remove_rows (selected ∷ selection) rows =
    remove_rows selection (keep (λ row. not (same selected row)) rows)

unfoldable pub remove_row : Text → List Asset → List Asset
remove_row row_key rows = keep (λ row. not (text_eq row.id row_key)) rows

-- `tags[i] === '-'`, a character of the text and not a tag of it.
abbrev dash_at : Text → ℕ → Bool
dash_at tags i = elim (get_elem? tags i) [ none ↦ false | some c ↦ c == b'-' ]

tags_from : Text → List Text → ℕ → List Text
tags_from tags [] i = []
tags_from tags (tag ∷ pieces) i =
    let rest = tags_from tags pieces (suc i) in if dash_at tags i then rest else tag ∷ rest

-- The tags of a row that is not empty, as the table shows them.
unfoldable pub show_tags : Text → List Text
unfolding tags_from
show_tags tags = tags_from tags (split comma tags) 0
