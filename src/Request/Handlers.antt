-- ===== src/Request/Handlers.antt =====
-- The two handlers of web/src/common/request.js. What they show and where they go is a list of
-- effects, in order; an exception is the result `none`.
use next_terminal.Base.{
  ℕ, Bool, true, false, Option, none, some, List, [], ◌∷◌, ◌==◌, if◌then◌else◌,
}
use next_terminal.Base.Text.{Text, codes, text_eq}

pub data Effect : Type 0 where
  -- `message.error(text)`, with `none` for an absent text
  toast : Option Text → Effect
  -- `window.location.href = text`
  visit : Text → Effect

-- A value from the server that is not null: its fields `code` and `message`, where it has them.
pub record Body {ℓ} (A : Type ℓ) : Type ℓ where
  pub code : Option ℕ
  pub message : Option Text
  pub data' : A

-- `error.response`, whose data may be null.
pub record ErrorResponse : Type 0 where
  pub status : ℕ
  pub body : Option (Option Text)

-- An error: what its `toString` gives, its `message`, and its response, if there is one.
pub record Failure : Type 0 where
  pub text : Text
  pub message : Text
  pub response : Option ErrorResponse

abbrev pub login_url : Text
login_url = codes "#/login"

abbrev pub denied_url : Text
denied_url = codes "#/permission-denied"

abbrev pub network_error : Text
network_error = codes "Network Error"

-- `error.response.data.message`
abbrev response_message : ErrorResponse → List Effect × Option Bool
response_message r = elim (r.body) [
  | none ↦ ([], none)
  | some message ↦ (toast message ∷ [], some false)
]

unfoldable pub handle_error : Failure → List Effect × Option Bool
handle_error error =
    if text_eq network_error error.text
    then (toast (some (codes "网络异常")) ∷ [], some false)
    else elim (error.response) [
      | none ↦ ([], some true)
      | some r ↦ if r.status == 401 then (visit login_url ∷ [], some false) else response_message r
    ]

-- `result['code'] === n`, false for an absent code
abbrev pub code_is : Option ℕ → ℕ → Bool
code_is none n = false
code_is (some c) n = c == n

unfoldable pub handle_result {ℓ} : {A : Type ℓ} → Option (Body A) → List Effect × Option Bool
handle_result none = ([], none)
handle_result (some b) =
    if code_is b.code 401
    then (visit login_url ∷ [], some false)
    else if code_is b.code 403
    then (visit denied_url ∷ [], some false)
    else if code_is b.code 100
    then ([], some true)
    else if code_is b.code 1
    then ([], some true)
    else (toast b.message ∷ [], some false)
