-- ===== src/Assets/Checks.antt =====
-- The rows of the asset table while connections are tested, and what becomes of an imported file
-- (web/src/components/asset/Asset.js).
use next_terminal.Base.{ℕ, zero, suc, Bool, true, false, List, [], ◌∷◌, ◌++◌, if◌then◌else◌}
use next_terminal.Base.Text.{Text, codes, text_eq, has_text, split}
use next_terminal.Layout.Permission.{includes}
use next_terminal.Tables.Paging.{comma}

pub record Row : Type 0 where
  pub id : Text
  pub active : Bool
  pub active_message : Text
  pub testing : Bool

-- `rows[i]` changed in place. An index behind the end is an error in the code; no row has it.
unfoldable pub adjust : (Row → Row) → ℕ → List Row → List Row
adjust f i [] = []
adjust f zero (row ∷ rows) = f row ∷ rows
adjust f (suc i) (row ∷ rows) = row ∷ adjust f i rows

abbrev pub started : Row → Row
started row = record row { testing = true }

abbrev pub ended : Bool × Text → Row → Row
ended answer row = record row { active = answer.0; active_message = answer.1; testing = false }

-- `connTest` up to its `await`, and behind it.
unfoldable pub conn_test_start : ℕ → List Row → List Row
conn_test_start i items = adjust started i items

unfoldable pub conn_test_end : ℕ → Bool × Text → List Row → List Row
conn_test_end i answer items = adjust (ended answer) i items

-- The loop of `connTestInBatch`: `walked` are the items from index `i` on.
unfoldable pub start_from : List Text → List Row → ℕ → List Row → List Row
start_from selected [] i items = items
start_from selected (item ∷ walked) i items =
    start_from selected walked (suc i)
      (if includes selected item.id then conn_test_start i items else items)

-- The rows, and the keys selected from then on.
unfoldable pub conn_test_in_batch : List Text → List Row → List Row × List Text
conn_test_in_batch selected items = (start_from selected items 0 items, [])

-- The answers of tests that run at once, in the order in which they come.
unfoldable pub end_all : (ℕ → Bool × Text) → List ℕ → List Row → List Row
end_all answer [] items = items
end_all answer (i ∷ order) items = end_all answer order (conn_test_end i (answer i) items)

-- The page: the items that `setItems` has set, and those that a test which still runs holds.
pub record Page : Type 0 where
  pub items : List Row
  pub held : List Row

-- A test from the rows that are shown; an answer; a reload by the table's `request`.
unfoldable pub test : ℕ → Page → Page
unfolding conn_test_start
test i page = let rows = conn_test_start i page.items in record { items = rows; held = rows }

unfoldable pub answered : ℕ → Bool × Text → Page → Page
unfolding conn_test_end
answered i answer page =
    let rows = conn_test_end i answer page.held in record { items = rows; held = rows }

unfoldable pub reload : List Row → Page → Page
reload rows page = record page { items = rows }

-- The tags of a row as the table shows them: none where there is no text.
abbrev without_dash : List Text → List Text
without_dash [] = []
without_dash (tag ∷ tags) =
    let rest = without_dash tags in if text_eq tag (codes "-") then rest else tag ∷ rest

unfoldable pub render_tags : Text → List Text
render_tags tags = if has_text tags then without_dash (split comma tags) else []

-- Where "access" leads.
unfoldable pub access_url : (protocol id name : Text) → Text
access_url protocol id name =
    if text_eq protocol (codes "ssh")
    then codes "#/term?assetId=" ++ id ++ codes "&assetName=" ++ name
    else codes "#/access?assetId="
      ++ id
      ++ codes "&assetName="
      ++ name
      ++ codes "&protocol="
      ++ protocol
