-- ===== src/Files/Listing.antt =====
-- A directory's rows: how `loadFiles` of web/src/components/devops/FileSystem.js orders the items
-- of the server's answer. `toUpperCase` is a parameter; `Array.prototype.sort` is stable.
use next_terminal.Base.{
  Bool, true, false, not, List, [], ◌∷◌, ◌++◌, map, keep, ltb, ◌==◌, if◌then◌else◌,
}
use next_terminal.Base.Text.{Text, codes, text_eq}

pub record Item : Type 0 where
  pub name : Text
  pub path : Text
  pub is_dir : Bool
  pub is_link : Bool

-- An item with its key; only the row of the parent directory is disabled.
pub record Row : Type 0 where
  pub key : Text
  pub item : Item
  pub disabled : Bool

-- `a < b` of texts, by code units
unfoldable pub text_lt : Text → Text → Bool
text_lt s [] = false
text_lt [] (d ∷ t) = true
text_lt (c ∷ s) (d ∷ t) = if ltb c d then true else if c == d then text_lt s t else false

-- The sign of a comparison.
pub data Sign : Type 0 where
  minus nil plus : Sign

abbrev pub is_plus : Sign → Bool
is_plus plus = true
is_plus _ = false

-- `xs.sort(compare)`, where `x` stood before all of `ys`
unfoldable pub insert {ℓ} : {A : Type ℓ} → (A → A → Sign) → A → List A → List A
insert compare x [] = x ∷ []
insert compare x (y ∷ ys) = if is_plus (compare x y) then y ∷ insert compare x ys else x ∷ y ∷ ys

unfoldable pub sort {ℓ} : {A : Type ℓ} → (A → A → Sign) → List A → List A
unfolding insert
sort compare [] = []
sort compare (x ∷ xs) = insert compare x (sort compare xs)

abbrev pub dots : Text
dots = codes ".."

abbrev pub root : Text
root = codes "/"

abbrev pub parent_row : Row
parent_row = record {
  key = dots;
  item = record { name = dots; path = dots; is_dir = true; is_link = false };
  disabled = true;
}

abbrev pub row_of : Item → Row
row_of item = record { key = item.path; item = item; disabled = false }

abbrev pub dir_row : Row → Bool
dir_row row = row.item.is_dir

abbrev pub file_row : Row → Bool
file_row row = not row.item.is_dir

module _ (upper : Text → Text) where
  unfoldable pub sort_by_name : Row → Row → Sign
  sort_by_name a b =
      let a1 = upper a.item.name in
      let b1 = upper b.item.name in
      if text_lt a1 b1 then minus else if text_lt b1 a1 then plus else nil

  -- The directories, then the files.
  abbrev pub sorted_rows : List Row → List Row
  sorted_rows items =
      sort sort_by_name (keep dir_row items) ++ sort sort_by_name (keep file_row items)

  unfoldable pub listing : Text → List Item → List Row
  listing key data' =
      let dirs = sorted_rows (map row_of data') in
      if text_eq key root then dirs else parent_row ∷ dirs
