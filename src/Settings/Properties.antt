-- ===== src/Settings/Properties.antt =====
-- What the settings make of the server's properties, and what they show of a licence
-- (web/src/components/setting/Setting.js).
use next_terminal.Base.{
  ℕ, suc, zero, ◌+◌, ◌*◌, Bool, true, false, ◌&&◌, ◌||◌, Option, none, some, List, [], ◌∷◌,
  if◌then◌else◌, ◌==◌, leb, ltb,
}
use next_terminal.Base.Text.{Text, codes, text_eq}
use next_terminal.Assets.Fields.{Fields, text, flag}
use next_terminal.Assets.Form.{undash}

-- `s.startsWith(p)`
unfoldable pub starts_with : Text → Text → Bool
starts_with [] s = true
starts_with (c ∷ p) [] = false
starts_with (c ∷ p) (d ∷ s) = (c == d) && starts_with p s

abbrev lower : ℕ → ℕ
lower c = if leb 65 c && leb c 90 then 32 + c else c

abbrev lowered : Text → Text
lowered [] = []
lowered (c ∷ s) = lower c ∷ lowered s

-- `/^true$/i.test(s)`: no other character than these letters folds to one of them.
unfoldable pub bool : Text → Bool
bool s = text_eq (lowered s) (codes "true")

-- The condition as it is bracketed: `key.startsWith("disable" || key === 'swap-red-blue')`.
unfoldable pub is_switch : Text → Bool
unfolding starts_with
is_switch key = starts_with (codes "enable") key || starts_with (codes "disable") key

-- The loop of `getProperties` over the server's properties, which are texts.
unfoldable pub read_properties : List (Text × Text) → Fields
unfolding is_switch bool
read_properties [] = []
read_properties ((key, value) ∷ properties) =
    (key, if is_switch key then flag (bool (undash value)) else text (undash value))
    ∷ read_properties properties

unfoldable pub render_type : Text → Text
render_type type' =
    if text_eq type' (codes "free")
    then codes "企业版"
    else if text_eq type' (codes "test")
    then codes "测试版"
    else if text_eq type' (codes "vip")
    then codes "会员版"
    else if text_eq type' (codes "pro")
    then codes "专业版"
    else if text_eq type' (codes "enterprise")
    then codes "企业版"
    else type'

-- A whole number.
pub data ℤ : Type 0 where
  pos : ℕ → ℤ
  negsuc : ℕ → ℤ

pub data Count : Type 0 where
  unlimited : Count
  limited : ℕ → Count

unfoldable pub render_count : ℤ → Count
render_count (negsuc n) = unlimited
render_count (pos zero) = unlimited
render_count (pos (suc n)) = limited (suc n)

-- A time of expiry is shown by its seconds.
pub data Expiry : Type 0 where
  no_time forever : Expiry
  expired valid : ℕ → Expiry

unfoldable pub render_time : (now : ℕ) → Option ℤ → Expiry
render_time now none = no_time
render_time now (some (negsuc n)) = forever
render_time now (some (pos zero)) = no_time
render_time now (some (pos (suc n))) =
    if ltb (suc n * 1000) now then expired (suc n) else valid (suc n)
