-- ===== src/Layout/Breadcrumb.antt =====
-- The breadcrumb of the manager's pages (web/src/layout/ManagerLayout.js), from the path that is shown.
use next_terminal.Base.{
  ℕ, suc, ◌+◌, ◌≡◌, refl, sym, ap, ◌∙◌, true, Option, none, some, List, [], ◌∷◌, ◌++◌, map, keep,
  length, if◌then◌else◌, arith, All,
}
use mathlib.Core.List.{append_assoc}
use next_terminal.Base.Text.{Text, codes, text_eq, has_text, split, join, join-split}
use next_terminal.Request.Verbs.{includes}
use next_terminal.Layout.Menu.{Router}

abbrev pub breadcrumb_match_map : List (Text × Text)
breadcrumb_match_map =
    (codes "/asset/", codes "资产详情")
    ∷ (codes "/user/", codes "用户详情")
    ∷ (codes "/role/", codes "角色详情")
    ∷ (codes "/user-group/", codes "用户组详情")
    ∷ (codes "/login-policy/", codes "登录策略详情")
    ∷ (codes "/command-filter/", codes "命令过滤器详情")
    ∷ (codes "/strategy/", codes "授权策略详情")
    ∷ []

abbrev slash : ℕ
slash = b'/'

-- The keys of the pages, with their labels; no two keys are the same.
unfoldable pub breadcrumb_name_map : List Router → List (Text × Text)
breadcrumb_name_map [] = []
breadcrumb_name_map (router ∷ routers) =
    elim (router.children) [
      | none ↦ (slash ∷ router.key, router.label) ∷ []
      | some pages ↦ map (λ page. (slash ∷ page.key, page.label)) pages
    ]
    ++ breadcrumb_name_map routers

abbrev pub named : Text → List (Text × Text) → Option Text
named url [] = none
named url ((key, label) ∷ names) = if text_eq key url then some label else named url names

-- The first key that the address holds.
abbrev matched : Text → List (Text × Text) → Option Text
matched url [] = none
matched url ((key, label) ∷ names) = if includes url key then some label else matched url names

unfoldable pub label_of : List (Text × Text) → Text → Option Text
label_of names url = elim (named url names) [
  | none ↦ matched url breadcrumb_match_map
  | some label ↦ some label
]

-- `location.pathname.split('/').filter(i => i)`
unfoldable pub path_snippets : Text → List Text
path_snippets pathname = keep has_text (split slash pathname)

-- The addresses of the snippets, behind those that stand before them.
unfoldable pub urls_from : List Text → List Text → List Text
urls_from before [] = []
urls_from before (snippet ∷ snippets) =
    (slash ∷ join slash (before ++ snippet ∷ [])) ∷ urls_from (before ++ snippet ∷ []) snippets

pub record Crumb : Type 0 where
  pub url : Text
  pub label : Option Text

unfoldable pub breadcrumb_items : List (Text × Text) → Text → List Crumb
unfolding label_of path_snippets urls_from
breadcrumb_items names pathname =
    record { url = codes "/"; label = some (codes "首页") }
    ∷ map (λ url. record { url = url; label = label_of names url })
        (urls_from [] (path_snippets pathname))

abbrev pub last_url : Text → List Crumb → Text
last_url url [] = url
last_url url (crumb ∷ crumbs) = last_url crumb.url crumbs

length-urls_from :
    (before snippets : List Text) → length (urls_from before snippets) ≡ length snippets
unfolding urls_from
length-urls_from before [] = refl
length-urls_from before (s ∷ snippets) = ap suc (length-urls_from (before ++ s ∷ []) snippets)

length-map : (f : Text → Crumb) (urls : List Text) → length (map f urls) ≡ length urls
length-map f [] = refl
length-map f (url ∷ urls) = ap suc (length-map f urls)

keep-All :
    (snippets : List Text)
    → All (λ s. has_text s ≡ true) snippets
    → keep has_text snippets ≡ snippets
keep-All [] h = refl
keep-All (s ∷ snippets) h = rw h.0 (ap (s ∷◌) (keep-All snippets h.1))

abbrev end_url : Text → List Text → List Text → Text
end_url url before [] = url
end_url url before (s ∷ ss) = slash ∷ join slash (before ++ s ∷ ss)

last-urls_from :
    (names : List (Text × Text)) (before snippets : List Text) (url : Text)
    → last_url url
        (map (λ url. record { url = url; label = label_of names url }) (urls_from before snippets))
      ≡ end_url url before snippets
unfolding urls_from
last-urls_from names before [] url = refl
last-urls_from names before (s ∷ []) url = refl
last-urls_from names before (s ∷ t ∷ ss) url =
    last-urls_from names (before ++ s ∷ []) (t ∷ ss) (slash ∷ join slash (before ++ s ∷ []))
    ∙ ap (λ l. slash ∷ join slash l) (append_assoc before (s ∷ []) (t ∷ ss))

-- For a path that begins with a solidus and has a snippet and no empty ones, the breadcrumb has one
-- entry for each snippet and one for the start, and its last entry leads to the path itself.
pub breadcrumb_items-path :
    (names : List (Text × Text)) (pathname snippet : Text) (snippets : List Text)
    → split slash pathname ≡ [] ∷ snippet ∷ snippets
    → All (λ s. has_text s ≡ true) (snippet ∷ snippets)
    → (length (breadcrumb_items names pathname) ≡ length snippets + 2)
      × (last_url [] (breadcrumb_items names pathname) ≡ pathname)
unfolding breadcrumb_items path_snippets join
breadcrumb_items-path names pathname snippet snippets e h =
    let crumbs : List Text → List Crumb =
      λ ss. map (λ url. record { url = url; label = label_of names url }) (urls_from [] ss) in
    let kept : path_snippets pathname ≡ snippet ∷ snippets =
      ap (keep has_text) e ∙ keep-All (snippet ∷ snippets) h in
    (
      ap (λ ss. suc (length (crumbs ss))) kept
          ∙ omega (
            arith,
            length-map (λ url. record { url = url; label = label_of names url })
                (urls_from [] (snippet ∷ snippets)),
            length-urls_from [] (snippet ∷ snippets),
          ),
      ap (λ ss. last_url (codes "/") (crumbs ss)) kept
          ∙ (last-urls_from names [] (snippet ∷ snippets) (codes "/")
              ∙ (ap (join slash) (sym e) ∙ join-split slash pathname)),
    )
