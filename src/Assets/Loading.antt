-- ===== src/Assets/Loading.antt =====
-- What becomes of an asset that is loaded into the form and handed over again.
use next_terminal.Base.{
  ◌≡◌, refl, ap, ◌∙◌, Bool, true, false, Option, none, some, List, [], ◌∷◌, any, arith,
  if◌then◌else◌, Bool-cases, inl, inr,
}
use next_terminal.Base.Text.{Text, codes, text_eq, text_eq_iff, join, join-split}
use next_terminal.Tables.Paging.{comma}
use next_terminal.Views.Items.{Item}
use next_terminal.Assets.Showing.{registered}
use next_terminal.Tables.Dialogue.{Dialogue}
use next_terminal.Assets.Fields.{
  Value, text, texts, Fields, value_of, text_of, value_of-assign, value_of-remove,
}
use next_terminal.Assets.Form.{
  undash, undash_value, undash_all, pieces, read_flag, read_tags, loaded, validated, submitted,
}

abbrev undashed : Option Value → Option Value
undashed none = none
undashed (some v) = some (undash_value v)

pub value_of-undash_all :
    (key : Text) (fields : Fields)
    → value_of key (undash_all fields) ≡ undashed (value_of key fields)
unfolding value_of undash_all
value_of-undash_all key [] = refl
value_of-undash_all key ((k, v) ∷ fields) = elim (Bool-cases (text_eq k key)) [
  | inl same ↦ rw same
  | inr other ↦ rw other (value_of-undash_all key fields)
]

any-validated :
    (key k : Text) (keys : List Text)
    → text_eq k key ≡ true
    → any (text_eq k) keys ≡ any (text_eq key) keys
any-validated key k keys same = ap (λ t. any (text_eq t) keys) ((text_eq_iff k key).0 same)

-- The values of the registered names, and of no others.
value_of-validated :
    (key : Text) (keys : List Text) (fields : Fields)
    → value_of key (validated keys fields)
      ≡ (if any (text_eq key) keys then value_of key fields else none)
unfolding value_of validated
value_of-validated key keys [] = ground arith
value_of-validated key keys ((k, v) ∷ fields) = elim (Bool-cases (text_eq k key)) [
  | inl same ↦ elim (Bool-cases (any (text_eq key) keys)) [
    | inl kept ↦ rw (any-validated key k keys same, kept, same) refl
    | inr cut ↦
        rw (any-validated key k keys same, cut) (value_of-validated key keys fields ∙ rw cut refl)
  ]
  | inr other ↦ elim (Bool-cases (any (text_eq k) keys)) [
    | inl kept ↦ rw (kept, other) (value_of-validated key keys fields)
    | inr cut ↦ rw (cut, other) (value_of-validated key keys fields)
  ]
]

value_of-loaded_tags :
    (asset : Fields)
    → value_of (codes "tags") (loaded asset)
      ≡ some (texts (pieces (text_of (undashed (value_of (codes "tags") asset)))))
unfolding loaded read_tags read_flag
value_of-loaded_tags asset = simp (value_of-assign, value_of-undash_all)

join-pieces : (t : Text) → join comma (pieces (some t)) ≡ t
unfolding join
join-pieces [] = refl
join-pieces (c ∷ t) = join-split comma (c ∷ t)

-- The tags of an asset that is loaded into a form with an item for them and handed over again, as a copy
-- or not, are the text they were, where a dash stands for none.
pub submitted-loaded_tags :
    (copied : Bool) (asset : Fields) (keys : List Text) (t : Text)
    → value_of (codes "tags") asset ≡ some (text t)
    → any (text_eq (codes "tags")) keys ≡ true
    → value_of (codes "tags") (submitted copied (validated keys (loaded asset)))
      ≡ some (text (undash t))
unfolding submitted undash_value
submitted-loaded_tags true asset keys t e k =
    simp (
      value_of-assign, value_of-remove, value_of-validated, k, value_of-loaded_tags, e, join-pieces,
    )
submitted-loaded_tags false asset keys t e k =
    simp (value_of-assign, value_of-validated, k, value_of-loaded_tags, e, join-pieces)

-- The values of the form that holds a record of the server.
abbrev pub held : (basic advanced : List Item) → Fields → Fields
held basic advanced asset = validated (registered basic advanced) (loaded asset)
