-- ===== src/Files/Order.antt =====
-- The rows of a listing are those of the answer, directories first, each part ordered by name.
use next_terminal.Base.{
  ◌≡◌, refl, true, false, List, [], ◌∷◌, ◌++◌, map, keep, All, All-imp, arith, Bool-cases, inl, inr,
}
use mathlib.Core.List.{Perm, perm_middle}
use mathlib.Core.List.Perm
use next_terminal.Base.Text.{Text}
use next_terminal.Files.Listing.{
  Item, Row, text_lt, Sign, is_plus, insert, sort, dir_row, file_row, row_of, sort_by_name,
  sorted_rows,
}

-- `b` is not before `a`.
abbrev pub TextLe : Text → Text → Type 0
TextLe a b = text_lt b a ≡ false

text_lt-asym : (a b : Text) → text_lt a b ≡ true → text_lt b a ≡ false
unfolding text_lt
text_lt-asym [] [] h = refl
text_lt-asym [] (d ∷ t) h = refl
text_lt-asym (c ∷ s) [] h = cc
text_lt-asym (c ∷ s) (d ∷ t) h = ground (arith, text_lt-asym s t)

TextLe-trans : (a b c : Text) → TextLe a b → TextLe b c → TextLe a c
unfolding text_lt
TextLe-trans [] b [] p q = refl
TextLe-trans [] [] (z ∷ u) p q = refl
TextLe-trans [] (y ∷ t) (z ∷ u) p q = refl
TextLe-trans (x ∷ s) [] [] p q = cc
TextLe-trans (x ∷ s) [] (z ∷ u) p q = cc
TextLe-trans (x ∷ s) (y ∷ t) [] p q = cc
TextLe-trans (x ∷ s) (y ∷ t) (z ∷ u) p q = ground (arith, TextLe-trans s t u)

module _ {ℓ} {A : Type ℓ} (compare : A → A → Sign) where
  insert-perm : (x : A) (ys : List A) → Perm (insert compare x ys) (x ∷ ys)
  unfolding insert
  insert-perm x [] = Perm.refl (x ∷ [])
  insert-perm x (y ∷ ys) = elim (Bool-cases (is_plus (compare x y))) [
    | inl later ↦ rw later (Perm.trans (Perm.cons y (insert-perm x ys)) (Perm.swap x y ys))
    | inr here ↦ rw here (Perm.refl (x ∷ y ∷ ys))
  ]

  pub sort-perm : (xs : List A) → Perm (sort compare xs) xs
  unfolding sort
  sort-perm [] = Perm.refl []
  sort-perm (x ∷ xs) = Perm.trans (insert-perm x (sort compare xs)) (Perm.cons x (sort-perm xs))

keep-perm : (rows : List Row) → Perm (keep dir_row rows ++ keep file_row rows) rows
keep-perm [] = Perm.refl []
keep-perm (row ∷ rows) = elim (Bool-cases row.item.is_dir) [
  | inl dir ↦ simp dir (Perm.cons row (keep-perm rows))
  | inr file ↦ simp file (
      Perm.trans (perm_middle (keep dir_row rows) (keep file_row rows))
        (Perm.cons row (keep-perm rows)))
]

module _ (upper : Text → Text) where
  abbrev pub NameLe : Row → Row → Type 0
  NameLe a b = TextLe (upper a.item.name) (upper b.item.name)

  -- Every row is at most those behind it.
  abbrev pub IsSorted : List Row → Type 0
  IsSorted [] = Unit
  IsSorted (row ∷ rows) = All (NameLe row) rows × IsSorted rows

  All-insert {κ} :
      (P : Row → Type κ) (row : Row) (rows : List Row)
      → P row
      → All P rows
      → All P (insert (sort_by_name upper) row rows)
  unfolding insert
  All-insert P row [] p h = (p, tt)
  All-insert P row (y ∷ ys) p h = elim (Bool-cases (is_plus (sort_by_name upper row y))) [
    | inl later ↦ rw later (h.0, All-insert P row ys p h.1)
    | inr here ↦ rw here (p, h)
  ]

  NameLe-of_plus : (a b : Row) → is_plus (sort_by_name upper a b) ≡ true → NameLe b a
  unfolding sort_by_name
  NameLe-of_plus a b h = ground arith

  NameLe-of_not_plus : (a b : Row) → is_plus (sort_by_name upper a b) ≡ false → NameLe a b
  unfolding sort_by_name
  NameLe-of_not_plus a b h = ground (arith, text_lt-asym (upper a.item.name) (upper b.item.name))

  insert-IsSorted :
      (row : Row) (rows : List Row)
      → IsSorted rows
      → IsSorted (insert (sort_by_name upper) row rows)
  unfolding insert
  insert-IsSorted row [] h = (tt, tt)
  insert-IsSorted row (y ∷ ys) h = elim (Bool-cases (is_plus (sort_by_name upper row y))) [
    | inl later ↦
        rw later (
          All-insert (NameLe y) row ys (NameLe-of_plus row y later) h.0,
          insert-IsSorted row ys h.1,
        )
    | inr here ↦
        let le = NameLe-of_not_plus row y here in
        rw here (
          (
            le,
            All-imp (NameLe y) (NameLe row) ys
                (λ z p.
                  TextLe-trans (upper row.item.name) (upper y.item.name) (upper z.item.name) le p)
                h.0,
          ),
          h,
        )
  ]

  sort-IsSorted : (rows : List Row) → IsSorted (sort (sort_by_name upper) rows)
  unfolding sort
  sort-IsSorted [] = tt
  sort-IsSorted (row ∷ rows) =
      insert-IsSorted row (sort (sort_by_name upper) rows) (sort-IsSorted rows)

  All-sort {κ} :
      (P : Row → Type κ) (rows : List Row) → All P rows → All P (sort (sort_by_name upper) rows)
  unfolding sort
  All-sort P [] h = tt
  All-sort P (row ∷ rows) h =
      All-insert P row (sort (sort_by_name upper) rows) h.0 (All-sort P rows h.1)

  -- What a listing is, apart from the row of the parent directory.
  pub record IsListing (items : List Item) (rows : List Row) : Type 0 where
    pub dirs : List Row
    pub files : List Row
    pub parts : rows ≡ dirs ++ files
    pub all : Perm rows (map row_of items)
    pub only_dirs : All (λ row. dir_row row ≡ true) dirs
    pub only_files : All (λ row. dir_row row ≡ false) files
    pub dirs_sorted : IsSorted dirs
    pub files_sorted : IsSorted files

  All-keep_dir : (rows : List Row) → All (λ row. dir_row row ≡ true) (keep dir_row rows)
  All-keep_dir [] = tt
  All-keep_dir (row ∷ rows) = elim (Bool-cases row.item.is_dir) [
    | inl dir ↦ simp dir (refl, All-keep_dir rows)
    | inr file ↦ simp file (All-keep_dir rows)
  ]

  All-keep_file : (rows : List Row) → All (λ row. dir_row row ≡ false) (keep file_row rows)
  All-keep_file [] = tt
  All-keep_file (row ∷ rows) = elim (Bool-cases row.item.is_dir) [
    | inl dir ↦ simp dir (All-keep_file rows)
    | inr file ↦ simp file (refl, All-keep_file rows)
  ]

  -- The sorted rows of a listing hold every item exactly once, the directories before the files and
  -- each part in the order of the upper-case names.
  pub sorted_rows-IsListing :
      (items : List Item) → IsListing items (sorted_rows upper (map row_of items))
  sorted_rows-IsListing items =
      let rows = map row_of items in
      let cmp = sort_by_name upper in
      record {
        dirs = sort cmp (keep dir_row rows);
        files = sort cmp (keep file_row rows);
        parts = refl;
        all =
            Perm.trans
              (Perm.append (sort-perm cmp (keep dir_row rows)) (sort-perm cmp (keep file_row rows)))
              (keep-perm rows);
        only_dirs = All-sort (λ row. dir_row row ≡ true) (keep dir_row rows) (All-keep_dir rows);
        only_files =
            All-sort (λ row. dir_row row ≡ false) (keep file_row rows) (All-keep_file rows);
        dirs_sorted = sort-IsSorted (keep dir_row rows);
        files_sorted = sort-IsSorted (keep file_row rows);
      }
