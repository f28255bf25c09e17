-- ===== src/Layout/Columns.antt =====
-- The stored columns of the tables (web/src/hook/column-state.js), over the texts of `localStorage`. The
-- functions of JSON are parameters; `none` is a text that does not parse, on which it throws.
use next_terminal.Base.{
  ◌≡◌, refl, ap, ◌∙◌, true, Option, none, some, List, [], ◌∷◌, if◌then◌else◌, Bool-cases, inl, inr,
  arith,
}
use next_terminal.Base.Text.{Text, text_eq, text_eq_iff, has_text}

abbrev pub LocalStorage : Type 0
LocalStorage = List (Text × Text)

unfoldable pub get_item : Text → LocalStorage → Option Text
get_item key [] = none
get_item key ((k, v) ∷ items) = if text_eq k key then some v else get_item key items

unfoldable pub set_item : Text → Text → LocalStorage → LocalStorage
set_item key value [] = (key, value) ∷ []
set_item key value ((k, v) ∷ items) =
    let rest = set_item key value items in
    if text_eq k key then (k, value) ∷ items else (k, v) ∷ rest

abbrev parsed {ℓ} : {C : Type ℓ} → C → Option C → C
parsed default none = default
parsed default (some state) = state

module _ {ℓ} {C : Type ℓ} (parse : Text → Option C) (stringify : C → Text) where
  unfoldable pub get_value_or_default : C → Option Text → C
  get_value_or_default default none = default
  get_value_or_default default (some item) =
      if has_text item then parsed default (parse item) else default

  -- Each case of the switch has the same default.
  unfoldable pub get_column_state : C → Text → LocalStorage → C
  unfolding get_item get_value_or_default
  get_column_state empty key storage = get_value_or_default empty (get_item key storage)

  unfoldable pub set_column_state : Text → C → LocalStorage → LocalStorage
  unfolding set_item
  set_column_state key column_state storage = set_item key (stringify column_state) storage

get_item-set_item :
    (key k value : Text) (items : LocalStorage)
    → get_item k (set_item key value items)
      ≡ (if text_eq key k then some value else get_item k items)
unfolding get_item set_item
get_item-set_item key k value [] = refl
get_item-set_item key k value ((j, v) ∷ items) = ground (
  arith,
  text_eq_iff key k,
  text_eq_iff j key,
  text_eq_iff j k,
  get_item-set_item key k value items,
)

module _ {ℓ} {C : Type ℓ} (parse : Text → Option C) (stringify : C → Text) where
  stored_state :
      (empty state : C)
      → parse (stringify state) ≡ some state
      → has_text (stringify state) ≡ true
      → get_value_or_default parse stringify empty (some (stringify state)) ≡ state
  unfolding get_value_or_default
  stored_state empty state p h =
      ap (λ b. if b then parsed empty (parse (stringify state)) else empty) h ∙ ap (parsed empty) p

  -- If JSON reads back a state of the columns that it wrote as a text that is not empty, storing
  -- the state under a key is what is read under that key, and changes nothing under any other.
  pub get_column_state-set_column_state :
      (empty state : C) (key k : Text) (storage : LocalStorage)
      → parse (stringify state) ≡ some state
      → has_text (stringify state) ≡ true
      → get_column_state parse stringify empty k
          (set_column_state parse stringify key state storage)
        ≡ (if text_eq key k then state else get_column_state parse stringify empty k storage)
  unfolding get_column_state set_column_state
  get_column_state-set_column_state empty state key k storage p h =
      let get = get_value_or_default parse stringify empty in
      let stored = get_item-set_item key k (stringify state) storage in
      elim (Bool-cases (text_eq key k)) [
        | inl same ↦ rw same (
            ap get
              (stored ∙ ap (λ b. if b then some (stringify state) else get_item k storage) same)
            ∙ stored_state empty state p h)
        | inr other ↦ rw other (
            ap get
              (stored ∙ ap (λ b. if b then some (stringify state) else get_item k storage) other))
      ]
