-- ===== src/Layout/Sider.antt =====
-- The sider of the manager's pages (web/src/layout/ManagerLayout.js): its logo and the open entries.
use next_terminal.Base.{ℕ, ◌≡◌, Bool, true, false, not, Option, some, List, if◌then◌else◌, arith}
use next_terminal.Base.Text.{Text}

-- `stored` is the entry `openKeys` of the session's storage, parsed.
pub record Sider : Type 0 where
  pub collapsed : Bool
  pub with_name : Bool
  pub logo_width : ℕ
  pub open_keys : Option (List Text)
  pub stored : Option (List Text)

unfoldable pub mount : Option (List Text) → Sider
mount stored = record {
  collapsed = false;
  with_name = true;
  logo_width = 140;
  open_keys = stored;
  stored = stored;
}

unfoldable pub on_collapse : Sider → Sider
on_collapse sider =
    if not sider.collapsed
    then record sider { with_name = false; logo_width = 46; collapsed = true }
    else record sider { with_name = true; logo_width = 140; collapsed = false }

unfoldable pub sub_menu_change : List Text → Sider → Sider
sub_menu_change keys sider = record sider { open_keys = some keys; stored = some keys }

pub data Move (s : Sider) (t : Sider) : Type 0 where
  collapsed' : t ≡ on_collapse s → Move s t
  opened : (keys : List Text) → t ≡ sub_menu_change keys s → Move s t

pub data Reach (s : Sider) : Sider → Type 0 where
  here : Reach s s
  next : {t u : Sider} → Reach s t → Move t u → Reach s u

-- The logo fits the width, and a new page begins with the entries that are open.
abbrev pub IsFitting : Sider → Type 0
IsFitting s =
    (s.with_name ≡ not s.collapsed)
    × (s.logo_width ≡ (if s.collapsed then 46 else 140))
    × (s.stored ≡ s.open_keys)

Move-IsFitting : {s t : Sider} → Move s t → IsFitting s → IsFitting t
unfolding on_collapse sub_menu_change
Move-IsFitting (collapsed' e) f = ground (arith, e)
Move-IsFitting (opened keys e) f = ground (arith, e)

pub Reach-IsFitting : {s t : Sider} → Reach s t → IsFitting s → IsFitting t
Reach-IsFitting here f = f
Reach-IsFitting (next r m) f = Move-IsFitting m (Reach-IsFitting r f)
