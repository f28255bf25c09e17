-- ===== src/Layout/Permission.antt =====
-- The stored user and permissions (web/src/service/permission.js, web/src/common/auth.js). What the
-- storage holds is the parsed value; `none` is an absent entry or an absent field.
use next_terminal.Base.{Bool, false, ◌||◌, Option, none, some, List, [], ◌∷◌, any}
use next_terminal.Base.Text.{Text, codes, text_eq}

pub record User : Type 0 where
  pub type : Option Text
  pub menus : Option (List Text)

abbrev pub no_user : User
no_user = record { type = none; menus = none }

abbrev pub Storage : Type 0
Storage = Option User

unfoldable pub set_current_user : Option User → Storage → Storage
set_current_user none storage = storage
set_current_user (some user) storage = some user

unfoldable pub get_current_user : Storage → User
get_current_user none = no_user
get_current_user (some user) = user

abbrev type_is : Option Text → Text → Bool
type_is none t = false
type_is (some s) t = text_eq s t

unfoldable pub is_admin : Storage → Bool
unfolding get_current_user
is_admin storage = type_is (get_current_user storage).type (codes "admin")

-- `xs.includes(x)`
abbrev pub includes : List Text → Text → Bool
includes xs x = any (text_eq x) xs

abbrev pub menus_of : User → List Text
menus_of user = elim (user.menus) [ none ↦ [] | some menus ↦ menus ]

-- The loop of `hasMenu`.
unfoldable pub has_any : List Text → List Text → Bool
has_any menus [] = false
has_any menus (item ∷ items) = includes menus item || has_any menus items

unfoldable pub has_menu : Storage → List Text → Bool
unfolding has_any get_current_user
has_menu storage items = has_any (menus_of (get_current_user storage)) items

-- `HasPermission`, of the parsed list of the session's storage
unfoldable pub has_permission : Option (List Text) → Text → Bool
has_permission none permission = false
has_permission (some permissions) permission = includes permissions permission
