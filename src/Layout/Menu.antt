-- ===== src/Layout/Menu.antt =====
-- The menu of the manager's pages (web/src/layout/ManagerLayout.js). The entries are shared by all
-- renderings, and a rendering writes to them: they are the state.
use next_terminal.Base.{
  ◌≡◌, refl, Bool, true, Option, none, some, List, [], ◌∷◌, map, keep, All, if◌then◌else◌,
  Bool-cases, inl, inr,
}
use next_terminal.Base.Text.{Text}
use next_terminal.Layout.Permission.{includes}

pub record Page : Type 0 where
  pub key : Text
  pub label : Text

pub record Router : Type 0 where
  pub key : Text
  pub label : Text
  pub children : Option (List Page)

abbrev pub allowed : List Text → Page → Bool
allowed user_menus page = includes user_menus page.key

-- `router.children = router.children.filter(…)`, where there are children
unfoldable pub restrict : List Text → Router → Router
restrict user_menus router = elim (router.children) [
  | none ↦ router
  | some pages ↦ record router { children = some (keep (allowed user_menus) pages) }
]

abbrev pub shown : List Text → Router → Bool
shown user_menus router = includes user_menus router.key

-- A rendering: what becomes of the shared entries, and the menu.
unfoldable pub render : List Text → List Router → List Router × List Router
unfolding restrict
render user_menus routers = (
  map (λ router. if shown user_menus router then restrict user_menus router else router) routers,
  map (restrict user_menus) (keep (shown user_menus) routers),
)

-- The pages that an entry leads to.
abbrev pub pages_of : Router → List Page
pages_of router = elim (router.children) [ none ↦ [] | some pages ↦ pages ]

-- Every entry of the menu, and every page below one, is among the user's.
abbrev pub IsAllowed : List Text → Router → Type 0
IsAllowed user_menus router =
    (shown user_menus router ≡ true)
    × All (λ page. allowed user_menus page ≡ true) (pages_of router)

All-keep {ℓ} : {A : Type ℓ} (p : A → Bool) (xs : List A) → All (λ x. p x ≡ true) (keep p xs)
All-keep p [] = tt
All-keep p (x ∷ xs) = elim (Bool-cases (p x)) [
  | inl in' ↦ rw in' (in', All-keep p xs)
  | inr out ↦ rw out (All-keep p xs)
]

restrict-IsAllowed :
    (user_menus : List Text) (router : Router)
    → shown user_menus router ≡ true
    → IsAllowed user_menus (restrict user_menus router)
unfolding restrict
restrict-IsAllowed user_menus router h = by_children router.key router.label router.children h
  where
    by_children :
        (key label : Text) (children : Option (List Page))
        → includes user_menus key ≡ true
        → IsAllowed user_menus
            (restrict user_menus (record { key = key; label = label; children = children }))
    by_children key label none e = (e, tt)
    by_children key label (some pages) e = (e, All-keep (allowed user_menus) pages)

-- Whatever the shared entries, the menu shows only entries and pages that are among the user's
-- menus.
pub render-IsAllowed :
    (user_menus : List Text) (routers : List Router)
    → All (IsAllowed user_menus) (render user_menus routers).1
unfolding render
render-IsAllowed user_menus [] = tt
render-IsAllowed user_menus (router ∷ routers) = elim (Bool-cases (shown user_menus router)) [
  | inl in' ↦ rw in' (restrict-IsAllowed user_menus router in', render-IsAllowed user_menus routers)
  | inr out ↦ rw out (render-IsAllowed user_menus routers)
]

abbrev pub entry : (key label : Text) → List Page → Router
entry key label pages = record { key = key; label = label; children = some pages }

-- An entry with pages that both of two users have shows the second user, after the first one's
-- menu, the pages that both of them have: what the first lacks, the second does not see.
pub render-again :
    (first second : List Text) (key label : Text) (pages : List Page)
    → includes first key ≡ true
    → includes second key ≡ true
    → (render second (render first (entry key label pages ∷ [])).0).1
      ≡ entry key label (keep (allowed second) (keep (allowed first) pages)) ∷ []
unfolding restrict render
render-again first second key label pages f s = rw (f, s) refl
