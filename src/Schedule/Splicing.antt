-- ===== src/Schedule/Splicing.antt =====
-- The text of a day's checked intervals (`splicing` of
-- web/src/dd/drag-weektime/DragWeekTime.js).
use mathlib.Core.List.{flatten}
use next_terminal.Base.{Bool, false, List, [], ◌∷◌, ◌++◌, ℕ, drop, drop_last, if◌then◌else◌}
use next_terminal.Base.Text.{Text}
use next_terminal.Schedule.Cells.{Item, tilde}

-- The code unit of '、', which stands between two intervals.
abbrev pub comma : ℕ
comma = 0x3001

-- `if (result.length) { result.pop(); result.push(end); }`
unfoldable pub splice_end : List Text → Text → List Text
splice_end [] end = []
splice_end (t ∷ ts) end = drop_last (t ∷ ts) ++ end ∷ []

-- One round of the loop over the cells: the array of pieces so far, and the mark of the cell before.
abbrev pub splice_step : List Text → Bool → Item → List Text
splice_step result same item =
    if item.checked
    then (if same
        then splice_end result item.end
        else result ++ (comma ∷ []) ∷ item.begin ∷ (tilde ∷ []) ∷ item.end ∷ [])
    else result

unfoldable pub splice_loop : List Item → Bool → List Text → List Text
splice_loop [] same result = result
splice_loop (item ∷ items) same result =
    splice_loop items item.checked (splice_step result same item)

unfoldable pub splicing : List Item → Text
unfolding splice_loop splice_end
splicing arr = flatten (drop 1 (splice_loop arr false []))
