-- ===== src/Tests/LayoutRuns.antt =====
-- The menu (web/src/layout/ManagerLayout.js) of two users, one after the other.
use next_terminal.Base.{◌≡◌, refl, Option, some, List, [], ◌∷◌, ◌+◌, All, length}
use next_terminal.Base.Text.{Text, codes, split}
use next_terminal.Layout.Routers
use next_terminal.Layout.Breadcrumb.{
  breadcrumb_name_map, breadcrumb_items, last_url, breadcrumb_items-path,
}
use next_terminal.Layout.Menu.{Page, Router, entry, render, IsAllowed, render-IsAllowed}

abbrev users_page : Page
users_page = record { key = codes "user"; label = codes "users" }

abbrev roles_page : Page
roles_page = record { key = codes "role"; label = codes "roles" }

abbrev pages : List Page
pages = users_page ∷ roles_page ∷ []

abbrev clerk : List Text
clerk = codes "identity" ∷ codes "user" ∷ []

abbrev auditor : List Text
auditor = codes "identity" ∷ codes "role" ∷ []

abbrev routers : List Router
routers =
    entry (codes "identity") (codes "people") pages ∷ entry (codes "ops") (codes "ops") [] ∷ []

render-IsAllowed_example : All (IsAllowed clerk) (render clerk routers).1
render-IsAllowed_example = render-IsAllowed clerk routers

breadcrumb_items-path_example :
    (length (breadcrumb_items (breadcrumb_name_map Routers.routers) (codes "/asset/7")) ≡ 1 + 2)
    × (last_url [] (breadcrumb_items (breadcrumb_name_map Routers.routers) (codes "/asset/7"))
        ≡ codes "/asset/7")
unfolding split
breadcrumb_items-path_example =
    breadcrumb_items-path (breadcrumb_name_map Routers.routers) (codes "/asset/7") (codes "asset")
      (codes "7" ∷ []) refl (refl, (refl, tt))

-- A text that stands for itself.
abbrev itself : Text → Option Text
itself t = some t

abbrev written : Text → Text
written t = t
