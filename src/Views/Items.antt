-- ===== src/Views/Items.antt =====
-- The items of the forms (`Form.Item` of web/src/components), apart from their looks: placeholders,
-- tooltips, messages and layout are left out.
use next_terminal.Base.{
  Bool, true, false, not, ◌&&◌, Option, none, some, List, [], ◌∷◌, map, any, All, ◌≡◌, Bool-cases,
  inl, inr, arith,
}
use next_terminal.Base.Text.{Text, codes, text_eq}
use next_terminal.Settings.Properties.{ℤ}
use next_terminal.Assets.Fields.{Value, flag}
use Prim.Native.String.{String}

-- The control of an item; `input` names its type, a number has a least and a greatest value, and the
-- options of a choice are values with their texts. `own` is a component of the program.
pub data Control : Type 0 where
  hidden area switch own : Control
  input : Text → Control
  number : ℤ → Option ℤ → Control
  select radio multiple : List (Text × Text) → Control
  tag_select : List Text → Control

-- The rules of an item besides `required`: an address of mail, bounds on the length.
pub data Check : Type 0 where
  email : Check
  length_between : (least most : ℤ) → Check

-- An item that names no field has an empty name.
pub record Item : Type 0 where
  pub name : Text
  pub label : Text
  pub required : Bool
  pub initial : Option Text
  pub disabled : Bool
  pub checks : List Check
  pub control : Control

abbrev pub plain : (name label : String) → Control → Item
plain name label control = record {
  name = codes name;
  label = codes label;
  required = false;
  initial = none;
  disabled = false;
  checks = [];
  control = control;
}

abbrev pub must : Item → Item
must item = record item { required = true }

abbrev pub starting : String → Item → Item
starting value item = record item { initial = some (codes value) }

abbrev pub checked : Check → Item → Item
checked check item = record item { checks = check ∷ [] }

abbrev pub disabled_if : Bool → Item → Item
disabled_if b item = record item { disabled = b }

abbrev pub option : (value label : String) → Text × Text
option value label = (codes value, codes label)

abbrev pub text_input : Control
text_input = input (codes "text")

abbrev pub password_input : Control
password_input = input (codes "password")

-- `<Form.Item name='id' noStyle><Input hidden={true}/></Form.Item>`
abbrev pub id_item : Item
id_item = plain "id" "" hidden

abbrev pub item_name : Item → Text
item_name item = item.name

abbrev pub names : List Item → List Text
names items = map item_name items

-- No text stands twice in the list.
abbrev pub distinct : List Text → Bool
distinct [] = true
distinct (t ∷ ts) = not (any (text_eq t) ts) && distinct ts

abbrev pub is_toggle : Control → Bool
is_toggle switch = true
is_toggle _ = false

-- A switch is given a flag, any other control something else; an undefined value is given to none.
abbrev pub fits_toggle : Bool → Option Value → Bool
fits_toggle true (some (flag b)) = true
fits_toggle true (some _) = false
fits_toggle false (some (flag b)) = false
fits_toggle _ _ = true

abbrev pub fits : Control → Option Value → Bool
fits control value = fits_toggle (is_toggle control) value

-- What a Boolean test finds of each element of a list.
pub All-of_every {ℓ} :
    {A : Type ℓ} (p : A → Bool) (xs : List A)
    → any (λ x. not (p x)) xs ≡ false
    → All (λ x. p x ≡ true) xs
All-of_every p [] h = tt
All-of_every p (x ∷ xs) h = elim (Bool-cases (p x)) [
  | inl holds ↦ (holds, All-of_every p xs (ground (arith, h, holds)))
  | inr fails ↦ ground (arith, h, fails)
]

pub All-of_none {ℓ} :
    {A : Type ℓ} (q : A → Bool) (xs : List A) → any q xs ≡ false → All (λ x. q x ≡ false) xs
All-of_none q [] h = tt
All-of_none q (x ∷ xs) h = (ground (arith, h), All-of_none q xs (ground (arith, h)))
