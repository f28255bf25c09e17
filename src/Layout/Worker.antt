-- ===== src/Layout/Worker.antt =====
-- The pages of a user who is no manager (web/src/layout/UserLayout.js): title, breadcrumb and menu.
use next_terminal.Base.{Bool, Option, none, some, List, [], ◌∷◌, ◌++◌, map, if◌then◌else◌}
use next_terminal.Base.Text.{Text, codes, split}
use next_terminal.Request.Api.{Async, returns, throws, waits}
use next_terminal.Layout.Permission.{Storage, is_admin}
use next_terminal.Layout.Breadcrumb.{Crumb, named, path_snippets, urls_from}

unfoldable pub user_breadcrumb_names : List (Text × Text)
user_breadcrumb_names =
    (codes "/my-asset", codes "我的资产")
    ∷ (codes "/my-command", codes "我的指令")
    ∷ (codes "/my-info", codes "个人中心")
    ∷ []

-- A path begins with a solidus, so that it has a second part.
abbrev second : List Text → Text
second (first ∷ part ∷ parts) = part
second _ = codes "undefined"

-- What the title is set to, if anything.
unfoldable pub user_title : (pathname : Text) → Option Text
unfolding user_breadcrumb_names
user_title pathname = named (b'/' ∷ second (split b'/' pathname)) user_breadcrumb_names

unfoldable pub user_breadcrumb_items : (pathname : Text) → List Crumb
unfolding user_breadcrumb_names path_snippets urls_from
user_breadcrumb_items pathname =
    record { url = codes "/my-asset"; label = some (codes "首页") }
    ∷ map (λ url. record { url = url; label = named url user_breadcrumb_names })
        (urls_from [] (path_snippets pathname))

pub data UserEntry : Type 0 where
  to_dashboard to_logout : UserEntry

unfoldable pub user_menu : Storage → List UserEntry
unfolding is_admin
user_menu storage = (if is_admin storage then to_dashboard ∷ [] else []) ++ to_logout ∷ []

-- Where the confirmed logout leads, once its request has ended, with whatever answer.
unfoldable pub logged_out : Async Bool → Option Text
logged_out (returns done) = some (codes "/login")
logged_out (throws f) = none
logged_out waits = none
