-- ===== src/Shell/Entry.antt =====
-- What is shown to whom (web/src/dd/fi/show.js), where a user begins (web/src/components/Redirect.js), the
-- tabs of a page of details (web/src/components/asset/AssetDetail.js) and the days of the week
-- (web/src/utils/week.js).
use next_terminal.Base.{
  ℕ, ◌≡◌, refl, true, Option, none, some, List, [], ◌∷◌, ◌++◌, if◌then◌else◌, get_elem?, arith,
}
use next_terminal.Base.Text.{Text, codes, text_eq, has_text}
use next_terminal.Layout.Permission.{User, Storage, set_current_user, has_menu}

-- A single menu is a list of one.
unfoldable pub show {ℓ} : {C : Type ℓ} → Storage → List Text → C → Option C
unfolding has_menu
show storage menus children = if has_menu storage menus then some children else none

-- The storage, and the page to go to: a user of another type stays.
unfoldable pub on_info : User → Storage → Storage × Option Text
unfolding set_current_user
on_info data' storage = (
  set_current_user (some data') storage,
  elim (data'.type) [
    | none ↦ none
    | some type ↦
        if text_eq type (codes "user")
        then some (codes "/my-asset")
        else if text_eq type (codes "admin")
        then some (codes "/dashboard")
        else none
  ],
)

-- The tab that is open, and `activeKey` of the address.
pub record Tabs : Type 0 where
  pub active_key : Text
  pub search_key : Option Text

abbrev key_or_info : Option Text → Text
key_or_info none = codes "info"
key_or_info (some key) = if has_text key then key else codes "info"

unfoldable pub open_tabs : Option Text → Tabs
open_tabs key = record { active_key = key_or_info key; search_key = key }

unfoldable pub handle_tag_change : Text → Tabs → Tabs
handle_tag_change key tabs = record { active_key = key; search_key = some key }

-- A tab that was chosen is open again when the page is loaded anew.
pub open_tabs-handle_tag_change :
    (key : Text) (tabs : Tabs)
    → has_text key ≡ true
    → open_tabs (handle_tag_change key tabs).search_key ≡ handle_tag_change key tabs
unfolding open_tabs handle_tag_change
open_tabs-handle_tag_change [] tabs h = ground (arith, h)
open_tabs-handle_tag_change (c ∷ key) tabs h = refl

-- `weekMapping`, with Sunday at 0
abbrev week_mapping : List Text
week_mapping =
    codes "日" ∷ codes "一" ∷ codes "二" ∷ codes "三" ∷ codes "四" ∷ codes "五" ∷ codes "六" ∷ []

-- A day that is none of the seven shows "undefined".
unfoldable pub render_week_day : ℕ → Text
render_week_day d =
    codes "星期" ++ elim (get_elem? week_mapping d) [ none ↦ codes "undefined" | some name ↦ name ]
