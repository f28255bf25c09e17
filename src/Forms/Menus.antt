-- ===== src/Forms/Menus.antt =====
-- The menus of a role (web/src/components/user/RoleModal.js): what checking the boxes of the tree makes
-- of the form, and what of it is checked when the role is opened again.
use next_terminal.Base.{Bool, true, false, ◌&&◌, List, [], ◌∷◌, ◌++◌, if◌then◌else◌, any}
use next_terminal.Base.Text.{Text, text_eq}

-- The trees of the menu in their order: the first one's key, its children, the trees behind it.
pub data Forest : Type 0 where
  bare : Forest
  tree : Text → Forest → Forest → Forest

-- `if (findChildren.length) return findChildren`
abbrev pub or_else : List Text → List Text → List Text
or_else [] later = later
or_else (p ∷ ps) later = p ∷ ps

-- `path` is what the shared array holds when the call begins, and ends with again.
unfoldable pub find_tree_path : Text → Forest → List Text → List Text
find_tree_path key bare path = []
find_tree_path key (tree k children forest) path =
    let found = find_tree_path key children (path ++ k ∷ []) in
    let later = find_tree_path key forest path in
    if text_eq k key then path ++ k ∷ [] else or_else found later

-- `{menuId, checked}`
pub record Choice : Type 0 where
  pub menu_id : Text
  pub checked : Bool

abbrev same_bool : Bool → Bool → Bool
same_bool true b = b
same_bool false true = false
same_bool false false = true

-- The equality of the texts that `JSON.stringify` gives.
abbrev pub same_choice : Choice → Choice → Bool
same_choice a b = text_eq a.menu_id b.menu_id && same_bool a.checked b.checked

-- `menus.add`, in the order of the set
unfoldable pub add_choice : Choice → List Choice → List Choice
add_choice choice menus = if any (same_choice choice) menus then menus else menus ++ choice ∷ []

unfoldable pub add_path : List Text → List Choice → List Choice
unfolding add_choice
add_path [] menus = menus
add_path (path ∷ []) menus = add_choice (record { menu_id = path; checked = true }) menus
add_path (path ∷ p ∷ paths) menus =
    add_path (p ∷ paths) (add_choice (record { menu_id = path; checked = false }) menus)

unfoldable pub add_keys : Forest → List Text → List Choice → List Choice
unfolding add_path find_tree_path
add_keys data' [] menus = menus
add_keys data' (key ∷ keys) menus =
    add_keys data' keys (add_path (find_tree_path key data' []) menus)

-- `menus` of the form after `onCheck`
unfoldable pub on_check : Forest → List Text → List Choice
unfolding add_keys
on_check data' keys = add_keys data' keys []

-- The keys that are checked when a role is opened.
unfoldable pub role_menus : List Choice → List Text
role_menus [] = []
role_menus (choice ∷ menus) =
    let rest = role_menus menus in if choice.checked then choice.menu_id ∷ rest else rest
