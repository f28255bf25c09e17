-- ===== src/Accounts/Password.antt =====
-- The change of the user's password (web/src/components/Info.js): the two fields and what is said below.
use next_terminal.Base.{◌≡◌, refl, Bool, false, List, [], ◌∷◌, if◌then◌else◌}
use next_terminal.Base.Text.{Text, text_eq}
use next_terminal.Request.Verbs.{Answer, Sent}
use next_terminal.Request.Api.{returns, throws, waits}
use next_terminal.Request.Endpoints.{change_own_password}

-- `validateStatus`; the state begins without one.
pub data Status : Type 0 where
  unset right different : Status

pub record Info : Type 0 where
  pub new_password1 : Text
  pub new_password2 : Text
  pub new_password_status : Status

abbrev pub new_info : Info
new_info = record { new_password1 = []; new_password2 = []; new_password_status = unset }

unfoldable pub validate_new_password : Text → Text → Status
validate_new_password new_password1 new_password2 =
    if text_eq new_password2 new_password1 then right else different

unfoldable pub on_new_password_change : Text → Info → Info
unfolding validate_new_password
on_new_password_change value info = record info {
  new_password1 = value;
  new_password_status = validate_new_password value info.new_password2;
}

unfoldable pub on_new_password2_change : Text → Info → Info
unfolding validate_new_password
on_new_password2_change value info = record info {
  new_password2 = value;
  new_password_status = validate_new_password info.new_password1 value;
}

-- Whether the notice is shown and the user sent to the login page.
unfoldable pub change_password {ℓ κ} :
    {P : Type ℓ} {A : Type κ} → (Sent P → Answer A) → Text → P → Bool
change_password axios token values = elim (change_own_password axios token values) [
  | returns success ↦ success
  | throws f ↦ false
  | waits ↦ false
]

pub data Typed : Type 0 where
  first second : Text → Typed

abbrev pub typed : Typed → Info → Info
typed (first value) info = on_new_password_change value info
typed (second value) info = on_new_password2_change value info

abbrev pub type_all : List Typed → Info → Info
type_all [] info = info
type_all (t ∷ ts) info = type_all ts (typed t info)

abbrev pub IsJudged : Info → Type 0
IsJudged info =
    info.new_password_status ≡ validate_new_password info.new_password1 info.new_password2

typed-IsJudged : (t : Typed) (info : Info) → IsJudged (typed t info)
unfolding on_new_password_change on_new_password2_change
typed-IsJudged (first value) info = refl
typed-IsJudged (second value) info = refl

type_all-IsJudged : (ts : List Typed) (info : Info) → IsJudged info → IsJudged (type_all ts info)
type_all-IsJudged [] info h = h
type_all-IsJudged (t ∷ ts) info h = type_all-IsJudged ts (typed t info) (typed-IsJudged t info)
