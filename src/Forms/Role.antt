-- ===== src/Forms/Role.antt =====
-- Opening a role again shows what was checked.
use next_terminal.Base.{
  ◌≡◌, refl, sym, ap, ◌∙◌, Bool, true, false, ◌&&◌, ◌||◌, List, [], ◌∷◌, ◌++◌, any, Bool-cases, inl,
  inr, arith,
}
use next_terminal.Base.Text.{Text, text_eq, text_eq_iff}
use next_terminal.Forms.Menus.{
  Forest, bare, tree, Choice, or_else, find_tree_path, same_choice, add_choice, add_path, add_keys,
  on_check, role_menus,
}

abbrev pub holds : Text → List Text → Bool
holds key keys = any (text_eq key) keys

-- Whether a key stands somewhere in the trees.
abbrev pub in_forest : Text → Forest → Bool
in_forest key bare = false
in_forest key (tree k children forest) =
    text_eq k key || (in_forest key children || in_forest key forest)

-- A path is found for the keys of the trees, and leads to the key.
abbrev Leads : Text → Bool → List Text → Type 0
Leads key true path = (before : List Text) × (path ≡ before ++ key ∷ [])
Leads key false path = path ≡ []

Leads-or_else :
    (key : Text) (b c : Bool) (xs ys : List Text)
    → Leads key b xs
    → Leads key c ys
    → Leads key (b || c) (or_else xs ys)
Leads-or_else key true c xs ys ([], e) h = ([], ap (λ l. or_else l ys) e)
Leads-or_else key true c xs ys (p ∷ before, e) h = (p ∷ before, ap (λ l. or_else l ys) e)
Leads-or_else key false true xs ys e (before, h) = (before, ap (λ l. or_else l ys) e ∙ h)
Leads-or_else key false false xs ys e h = ap (λ l. or_else l ys) e ∙ h

find_tree_path-Leads :
    (key : Text) (forest : Forest) (path : List Text)
    → Leads key (in_forest key forest) (find_tree_path key forest path)
unfolding find_tree_path
find_tree_path-Leads key bare path = refl
find_tree_path-Leads key (tree k children forest) path = elim (Bool-cases (text_eq k key)) [
  | inl here ↦ rw here (path, ap (λ t. path ++ t ∷ []) ((text_eq_iff k key).0 here))
  | inr other ↦ rw other (
      Leads-or_else key (in_forest key children) (in_forest key forest)
        (find_tree_path key children (path ++ k ∷ [])) (find_tree_path key forest path)
        (find_tree_path-Leads key children (path ++ k ∷ [])) (find_tree_path-Leads key forest path))
]

holds-append :
    (key : Text) (xs ys : List Text) → holds key (xs ++ ys) ≡ holds key xs || holds key ys
holds-append key [] ys = refl
holds-append key (x ∷ xs) ys = ground (arith, holds-append key xs ys)

role_menus-append : (xs ys : List Choice) → role_menus (xs ++ ys) ≡ role_menus xs ++ role_menus ys
unfolding role_menus
role_menus-append [] ys = refl
role_menus-append (x ∷ xs) ys = ground (arith, role_menus-append xs ys)

-- What an added choice is read back as.
abbrev read_as : Text → Choice → Bool
read_as key choice = choice.checked && text_eq key choice.menu_id

holds-same_choice :
    (key : Text) (choice : Choice) (menus : List Choice)
    → any (same_choice choice) menus ≡ true
    → read_as key choice ≡ true
    → holds key (role_menus menus) ≡ true
unfolding role_menus
holds-same_choice key choice [] h r = ground (arith, h)
holds-same_choice key choice (c ∷ menus) h r = ground (
  arith,
  text_eq_iff key choice.menu_id,
  text_eq_iff choice.menu_id c.menu_id,
  text_eq_iff key c.menu_id,
  holds-same_choice key choice menus,
)

holds-add_choice :
    (key : Text) (choice : Choice) (menus : List Choice)
    → holds key (role_menus (add_choice choice menus))
      ≡ holds key (role_menus menus) || read_as key choice
unfolding add_choice role_menus
holds-add_choice key choice menus = elim (Bool-cases (any (same_choice choice) menus)) [
  | inl there ↦ rw there (ground (arith, holds-same_choice key choice menus there))
  | inr absent ↦ rw absent (
      ground (
        arith,
        role_menus-append menus (choice ∷ []),
        holds-append key (role_menus menus) (role_menus (choice ∷ [])),
      ))
]

holds-add_path :
    (k key : Text) (before : List Text) (menus : List Choice)
    → holds k (role_menus (add_path (before ++ key ∷ []) menus))
      ≡ holds k (role_menus menus) || text_eq k key
unfolding add_path
holds-add_path k key [] menus = holds-add_choice k (record { menu_id = key; checked = true }) menus
holds-add_path k key (b ∷ []) menus = ground (
  arith,
  holds-add_choice k (record { menu_id = b; checked = false }) menus,
  holds-add_path k key [] (add_choice (record { menu_id = b; checked = false }) menus),
)
holds-add_path k key (b ∷ c ∷ before) menus = ground (
  arith,
  holds-add_choice k (record { menu_id = b; checked = false }) menus,
  holds-add_path k key (c ∷ before) (add_choice (record { menu_id = b; checked = false }) menus),
)

holds-add_led :
    (k key : Text) (b : Bool) (path : List Text) (menus : List Choice)
    → Leads key b path
    → holds k (role_menus (add_path path menus))
      ≡ holds k (role_menus menus) || (text_eq k key && b)
unfolding add_path
holds-add_led k key true path menus (before, e) =
    ap (λ p. holds k (role_menus (add_path p menus))) e
    ∙ (holds-add_path k key before menus ∙ ground arith)
holds-add_led k key false path menus e =
    ap (λ p. holds k (role_menus (add_path p menus))) e ∙ ground arith

in_forest-same :
    (k key : Text) (forest : Forest)
    → text_eq k key && in_forest key forest ≡ text_eq k key && in_forest k forest
in_forest-same k key forest = elim (Bool-cases (text_eq k key)) [
  | inl same ↦ rw same (ap (λ t. in_forest t forest) (sym ((text_eq_iff k key).0 same)))
  | inr other ↦ rw other refl
]

holds-add_keys :
    (k : Text) (forest : Forest) (keys : List Text) (menus : List Choice)
    → holds k (role_menus (add_keys forest keys menus))
      ≡ holds k (role_menus menus) || (holds k keys && in_forest k forest)
unfolding add_keys
holds-add_keys k forest [] menus = ground arith
holds-add_keys k forest (key ∷ keys) menus = ground (
  arith,
  holds-add_keys k forest keys (add_path (find_tree_path key forest []) menus),
  holds-add_led k key (in_forest key forest) (find_tree_path key forest []) menus
      (find_tree_path-Leads key forest []),
  in_forest-same k key forest,
)

-- A key is among those that are checked when a role is opened, after keys were checked in the tree
-- and stored, exactly when it was one of these keys and stands in the tree.
pub role_menus-on_check :
    (key : Text) (forest : Forest) (keys : List Text)
    → holds key (role_menus (on_check forest keys)) ≡ holds key keys && in_forest key forest
unfolding on_check role_menus
role_menus-on_check key forest keys = holds-add_keys key forest keys []
