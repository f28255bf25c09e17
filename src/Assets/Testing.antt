-- ===== src/Assets/Testing.antt =====
-- What tests of connections leave in the rows of the asset table.
use next_terminal.Base.{
  ℕ, zero, suc, ◌+◌, ◌≡◌, refl, Bool, false, ◌||◌, Option, none, some, List, [], ◌∷◌, if◌then◌else◌,
  ◌==◌, ◌<◌, get_elem?, arith, any,
}
use next_terminal.Base.Text.{Text}
use next_terminal.Layout.Permission.{includes}
use next_terminal.Assets.Checks.{
  Row, adjust, started, ended, conn_test_start, conn_test_end, start_from, conn_test_in_batch,
  end_all,
}

abbrev pub changed : (Row → Row) → Option Row → Option Row
changed f none = none
changed f (some row) = some (f row)

get_elem?-adjust :
    (f : Row → Row) (i k : ℕ) (rows : List Row)
    → get_elem? (adjust f i rows) k
      ≡ (if k == i then changed f (get_elem? rows k) else get_elem? rows k)
unfolding adjust
get_elem?-adjust f i k [] = ground arith
get_elem?-adjust f zero zero (row ∷ rows) = refl
get_elem?-adjust f zero (suc k) (row ∷ rows) = ground arith
get_elem?-adjust f (suc i) zero (row ∷ rows) = ground arith
get_elem?-adjust f (suc i) (suc k) (row ∷ rows) = ground (arith, get_elem?-adjust f i k rows)

abbrev pub chosen : List Text → Option Row → Bool
chosen selected none = false
chosen selected (some row) = includes selected row.id

-- Whether the walk from `i` on meets index `k` and starts its test.
abbrev met : List Text → List Row → ℕ → ℕ → Bool
met selected [] i k = false
met selected (item ∷ walked) i k =
    (if includes selected item.id then k == i else false) || met selected walked (suc i) k

chosen-changed : (row : Option Row) → changed started (changed started row) ≡ changed started row
chosen-changed none = refl
chosen-changed (some row) = refl

ended-changed :
    (answer : Bool × Text) (row : Option Row)
    → changed (ended answer) (changed (ended answer) row) ≡ changed (ended answer) row
ended-changed answer none = refl
ended-changed answer (some row) = refl

ended-started :
    (answer : Bool × Text) (row : Option Row)
    → changed (ended answer) (changed started row) ≡ changed (ended answer) row
ended-started answer none = refl
ended-started answer (some row) = refl

get_elem?-start_from :
    (selected : List Text) (walked : List Row) (i k : ℕ) (items : List Row)
    → get_elem? (start_from selected walked i items) k
      ≡ (if met selected walked i k then changed started (get_elem? items k) else get_elem? items k)
unfolding start_from conn_test_start
get_elem?-start_from selected [] i k items = refl
get_elem?-start_from selected (item ∷ walked) i k items = ground (
  arith,
  get_elem?-start_from selected walked (suc i) k (adjust started i items),
  get_elem?-start_from selected walked (suc i) k items,
  get_elem?-adjust started i k items,
  chosen-changed (get_elem? items k),
)

met_before :
    (selected : List Text) (walked : List Row) (i k : ℕ) → k < i → met selected walked i k ≡ false
met_before selected [] i k h = refl
met_before selected (item ∷ walked) i k h =
    ground (arith, met_before selected walked (suc i) k (omega arith))

-- The walk meets the indexes of the chosen rows.
met-chosen :
    (selected : List Text) (walked : List Row) (i j : ℕ)
    → met selected walked i (i + j) ≡ chosen selected (get_elem? walked j)
met-chosen selected [] i j = refl
met-chosen selected (item ∷ walked) i zero =
    ground (arith, met_before selected walked (suc i) i (omega arith))
met-chosen selected (item ∷ walked) i (suc j) = ground (arith, met-chosen selected walked (suc i) j)

get_elem?-end_all :
    (answer : ℕ → Bool × Text) (order : List ℕ) (k : ℕ) (items : List Row)
    → get_elem? (end_all answer order items) k ≡ (
        if any (k ==◌) order
        then changed (ended (answer k)) (get_elem? items k)
        else get_elem? items k)
unfolding end_all conn_test_end
get_elem?-end_all answer [] k items = refl
get_elem?-end_all answer (i ∷ order) k items = ground (
  arith,
  get_elem?-end_all answer order k (adjust (ended (answer i)) i items),
  get_elem?-adjust (ended (answer i)) i k items,
  ended-changed (answer k) (get_elem? items k),
)

-- However the answers of a test in batch are ordered, and if they come for just the rows that were
-- selected, each selected row ends with the answer of its own test and is not being tested, and
-- every other row is as it was.
pub end_all-conn_test_in_batch :
    (selected : List Text) (items : List Row) (answer : ℕ → Bool × Text) (order : List ℕ) (k : ℕ)
    → any (k ==◌) order ≡ chosen selected (get_elem? items k)
    → get_elem? (end_all answer order (conn_test_in_batch selected items).0) k ≡ (
        if chosen selected (get_elem? items k)
        then changed (ended (answer k)) (get_elem? items k)
        else get_elem? items k)
unfolding conn_test_in_batch
end_all-conn_test_in_batch selected items answer order k e = ground (
  arith,
  get_elem?-end_all answer order k (start_from selected items 0 items),
  e,
  get_elem?-start_from selected items 0 k items,
  met-chosen selected items 0 k,
  ended-started (answer k) (get_elem? items k),
)
