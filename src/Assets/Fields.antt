-- ===== src/Assets/Fields.antt =====
-- The values of a form: an object of JavaScript with the kinds of value that the forms hold.
use next_terminal.Base.{
  ℕ, ◌≡◌, refl, Bool, false, Option, none, some, List, [], ◌∷◌, if◌then◌else◌, arith,
}
use next_terminal.Base.Text.{Text, codes, text_eq, text_eq_iff}

pub data Value : Type 0 where
  text : Text → Value
  number : ℕ → Value
  flag : Bool → Value
  texts : List Text → Value

-- The keys in their order; an undefined field is left out.
abbrev pub Fields : Type 0
Fields = List (Text × Value)

-- `fields[key]`
unfoldable pub value_of : Text → Fields → Option Value
value_of key [] = none
value_of key ((k, v) ∷ fields) = if text_eq k key then some v else value_of key fields

-- `fields[key] = value`
unfoldable pub assign : Text → Value → Fields → Fields
assign key value [] = (key, value) ∷ []
assign key value ((k, v) ∷ fields) =
    if text_eq k key then (k, value) ∷ fields else (k, v) ∷ assign key value fields

-- `fields[key] = undefined`
unfoldable pub remove : Text → Fields → Fields
remove key [] = []
remove key ((k, v) ∷ fields) =
    let rest = remove key fields in if text_eq k key then rest else (k, v) ∷ rest

-- `form.setFieldsValue(values)`
unfoldable pub set_fields : Fields → Fields → Fields
unfolding assign
set_fields [] form = form
set_fields ((key, value) ∷ values) form = set_fields values (assign key value form)

pub value_of-assign :
    (key k : Text) (value : Value) (fields : Fields)
    → value_of key (assign k value fields)
      ≡ (if text_eq k key then some value else value_of key fields)
unfolding value_of assign
value_of-assign key k value [] = refl
value_of-assign key k value ((j, v) ∷ fields) = ground (
  arith,
  text_eq_iff k key,
  text_eq_iff j k,
  text_eq_iff j key,
  value_of-assign key k value fields,
)

pub value_of-remove :
    (key k : Text) (fields : Fields)
    → value_of key (remove k fields) ≡ (if text_eq k key then none else value_of key fields)
unfolding value_of remove
value_of-remove key k [] = ground arith
value_of-remove key k ((j, v) ∷ fields) =
    ground
      (arith, text_eq_iff k key, text_eq_iff j k, text_eq_iff j key, value_of-remove key k fields)

-- The text of a value, if it is one.
abbrev pub text_of : Option Value → Option Text
text_of (some (text t)) = some t
text_of _ = none

-- `value === 'true'`
abbrev pub is_true : Option Value → Bool
is_true (some (text t)) = text_eq t (codes "true")
is_true _ = false
