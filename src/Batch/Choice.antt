-- ===== src/Batch/Choice.antt =====
-- What the choice of the assets keeps (web/src/components/devops/BatchCommand.js).
use next_terminal.Base.{
  ◌≡◌, refl, Bool, false, not, ◌||◌, List, [], ◌∷◌, ◌++◌, any, keep, Bool-cases, inl, inr, arith,
}
use next_terminal.Base.Text.{Text, text_eq, text_eq_iff}
use next_terminal.Batch.Waiting.{Asset, same, add_row, add_rows, remove_rows, remove_row}

-- No two rows have one id.
abbrev pub IsDistinct : List Asset → Type 0
IsDistinct [] = Unit
IsDistinct (row ∷ rows) = (any (same row) rows ≡ false) × IsDistinct rows

any-append : (p : Asset → Bool) (xs ys : List Asset) → any p (xs ++ ys) ≡ any p xs || any p ys
any-append p [] ys = refl
any-append p (x ∷ xs) ys = ground (arith, any-append p xs ys)

any-keep : (p q : Asset → Bool) (xs : List Asset) → any p xs ≡ false → any p (keep q xs) ≡ false
any-keep p q [] h = refl
any-keep p q (x ∷ xs) h = ground (arith, any-keep p q xs)

keep-IsDistinct :
    (q : Asset → Bool) (rows : List Asset) → IsDistinct rows → IsDistinct (keep q rows)
keep-IsDistinct q [] h = tt
keep-IsDistinct q (row ∷ rows) h = elim (Bool-cases (q row)) [
  | inl kept ↦ rw kept (any-keep (same row) q rows h.0, keep-IsDistinct q rows h.1)
  | inr left ↦ rw left (keep-IsDistinct q rows h.1)
]

same_sym : (a b : Asset) → same a b ≡ false → same b a ≡ false
same_sym a b h = ground (arith, text_eq_iff a.id b.id, text_eq_iff b.id a.id)

append-IsDistinct :
    (row : Asset) (rows : List Asset)
    → any (same row) rows ≡ false
    → IsDistinct rows
    → IsDistinct (rows ++ row ∷ [])
append-IsDistinct row [] h d = (refl, tt)
append-IsDistinct row (r ∷ rows) h d = (
  ground (arith, any-append (same r) rows (row ∷ []), same_sym row r (ground arith), d.0),
  append-IsDistinct row rows (ground arith) d.1,
)

add_row-IsDistinct :
    (row : Asset) (rows : List Asset) → IsDistinct rows → IsDistinct (add_row row rows)
unfolding add_row
add_row-IsDistinct row rows d = elim (Bool-cases (any (same row) rows)) [
  | inl there ↦ rw there d
  | inr absent ↦ rw absent (append-IsDistinct row rows absent d)
]

add_rows-IsDistinct :
    (selection rows : List Asset) → IsDistinct rows → IsDistinct (add_rows selection rows)
unfolding add_rows
add_rows-IsDistinct [] rows d = d
add_rows-IsDistinct (row ∷ selection) rows d =
    add_rows-IsDistinct selection (add_row row rows) (add_row-IsDistinct row rows d)

remove_rows-IsDistinct :
    (selection rows : List Asset) → IsDistinct rows → IsDistinct (remove_rows selection rows)
unfolding remove_rows
remove_rows-IsDistinct [] rows d = d
remove_rows-IsDistinct (row ∷ selection) rows d =
    remove_rows-IsDistinct selection _ (keep-IsDistinct (λ r. not (same row r)) rows d)

-- One click on the page, and the lists of rows that clicks lead to from the empty one.
pub data Click : List Asset → List Asset → Type 0 where
  added : {rows : List Asset} → (selection : List Asset) → Click rows (add_rows selection rows)
  removed : {rows : List Asset} → (selection : List Asset) → Click rows (remove_rows selection rows)
  closed : {rows : List Asset} → (key : Text) → Click rows (remove_row key rows)

pub data Reach : List Asset → Type 0 where
  start : Reach []
  next : {rows rows' : List Asset} → Reach rows → Click rows rows' → Reach rows'

click-IsDistinct : {rows rows' : List Asset} → Click rows rows' → IsDistinct rows → IsDistinct rows'
unfolding remove_row
click-IsDistinct (added {rows} selection) d = add_rows-IsDistinct selection rows d
click-IsDistinct (removed {rows} selection) d = remove_rows-IsDistinct selection rows d
click-IsDistinct (closed {rows} key) d = keep-IsDistinct (λ row. not (text_eq row.id key)) rows d

-- Whatever is added to and removed from the assets that wait for a command, beginning with none, no
-- two of them have the same id.
pub Reach-IsDistinct : {rows : List Asset} → Reach rows → IsDistinct rows
Reach-IsDistinct start = tt
Reach-IsDistinct (next r c) = click-IsDistinct c (Reach-IsDistinct r)
