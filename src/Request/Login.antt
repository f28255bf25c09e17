-- ===== src/Request/Login.antt =====
-- The login form (web/src/components/Login.js): what a submitted form does with the promise of the
-- request to /login, the second factor, and `setCurrentUser` of web/src/service/permission.js.
use mathlib.Core.Path.{subst}
use next_terminal.Base.{
  ℕ, ◌≡◌, ◌≢◌, refl, ◌↔◌, Bool, true, false, Option, none, some, List, [], ◌∷◌, ◌++◌, if◌then◌else◌,
  any, arith,
}
use next_terminal.Base.Text.{Text, codes, text_eq, has_text}
use next_terminal.Request.Handlers.{Body, Failure, code_is}
use next_terminal.Request.Verbs.{
  Answer, failed, Promise, resolved, rejected, pending, type_error, Sent, post,
}
use next_terminal.Request.Settling.{IsTold, posted, post-pending_iff}

pub record Account : Type 0 where
  pub username : Text
  pub password : Text
  pub remember : Bool
  pub totp : Option Text

-- `data['info']` and `data` of a successful login
pub record User : Type 0 where
  pub type : Text

pub record LoginData : Type 0 where
  pub token : Text
  pub info : Option User

pub data LoginEffect : Type 0 where
  -- `sessionStorage.removeItem`
  forget : Text → LoginEffect
  -- `localStorage.setItem('X-Auth-Token', …)`
  set_token : Text → LoginEffect
  -- `localStorage.setItem('user', …)`
  set_user : User → LoginEffect
  navigate : Text → LoginEffect
  close_modals : LoginEffect
  show_error : Text → LoginEffect
  warn_no_code : LoginEffect

pub record LoginForm : Type 0 where
  pub in_login : Bool
  pub prompt : Bool
  pub account : Option Account
  pub effects : List LoginEffect

abbrev emit : List LoginEffect → LoginForm → LoginForm
emit es s = record s { effects = s.effects ++ es }

set_current_user : Option User → List LoginEffect
set_current_user none = []
set_current_user (some user) = set_user user ∷ []

abbrev home_of : Option User → List LoginEffect
home_of none = []
home_of (some user) =
    navigate (if text_eq user.type (codes "user") then codes "/my-asset" else codes "/") ∷ []

-- The function is async: without data it throws behind its first two effects, unseen.
unfoldable pub after_login_success : Option LoginData → List LoginEffect
unfolding set_current_user
after_login_success none = forget (codes "current") ∷ forget (codes "openKeys") ∷ []
after_login_success (some d) =
    forget (codes "current")
    ∷ forget (codes "openKeys")
    ∷ set_token d.token
    ∷ (set_current_user d.info ++ home_of d.info)

-- The body of the `try` of `handleSubmit`, behind the request.
unfoldable pub submit_result : Account → Body (Option LoginData) → LoginForm → LoginForm
submit_result params result s =
    if code_is result.code 100
    then record s { prompt = true; account = some params }
    else if code_is result.code 1
    then emit (after_login_success result.data') s
    else s

-- `handleSubmit`: on a promise that stays pending, nothing behind the `await` runs.
unfoldable pub handle_submit : Account → Promise (Option LoginData) → LoginForm → LoginForm
handle_submit params pending s = record s { in_login = true }
handle_submit params (rejected f) s = record (emit (show_error f.message ∷ []) s) {
  in_login = false;
}
handle_submit params (resolved none) s = record (emit (show_error type_error.message ∷ []) s) {
  in_login = false;
}
handle_submit params (resolved (some result)) s = record (submit_result params result s) {
  in_login = false;
}

unfoldable pub login : Promise (Option LoginData) → LoginForm → LoginForm
login (resolved (some result)) s =
    if code_is result.code 1 then emit (close_modals ∷ after_login_success result.data') s else s
login _ s = s

-- `handleOk(account, totp)`: the account of the state is changed in place; the request's promise
-- depends on what is sent. Without an account the write throws.
unfoldable pub handle_ok : (Account → Promise (Option LoginData)) → Text → LoginForm → LoginForm
handle_ok send totp s =
    if has_text totp
    then elim (s.account) [
      | none ↦ s
      | some account ↦
          let account' = record account { totp = some totp } in
          login (send account') (record s { account = some account' })
    ]
    else emit (warn_no_code ∷ []) s

-- The form stays blocked exactly when the request stays pending.
submit-in_login_iff :
    (params : Account) (p : Promise (Option LoginData)) (s : LoginForm)
    → ((handle_submit params p s).in_login ≡ true) ↔ (p ≡ pending)
unfolding handle_submit
submit-in_login_iff params pending s = ground arith
submit-in_login_iff params (rejected f) s = ground arith
submit-in_login_iff params (resolved none) s = ground arith
submit-in_login_iff params (resolved (some b)) s = ground arith

-- After handleSubmit the button of the login form shows its progress for ever exactly when axios
-- fails with an error that is told; on every other answer, an error too, the form is free again.
pub handle_submit-blocked_iff :
    (axios : Sent Account → Answer (Option LoginData)) (token url : Text) (params : Account)
    (s : LoginForm)
    → ((handle_submit params (post axios token url (some params) []).1 s).in_login ≡ true)
      ↔ ((f : Failure) × (axios (posted axios token url (some params) []) ≡ failed f) × IsTold f)
handle_submit-blocked_iff axios token url params s =
    let p = (post axios token url (some params) []).1 in
    let (to, from) = submit-in_login_iff params p s in
    let (to', from') = post-pending_iff axios token url (some params) [] in
    (λ h. to' (to h), λ h. from (from' h))

abbrev is_token : LoginEffect → Bool
is_token (set_token _) = true
is_token _ = false

abbrev pub stores_token : List LoginEffect → Bool
stores_token = any is_token

after_login_success-token : (d : LoginData) → stores_token (after_login_success (some d)) ≡ true
unfolding after_login_success
after_login_success-token d = refl

after_login_success-none :
    after_login_success none ≡ forget (codes "current") ∷ forget (codes "openKeys") ∷ []
unfolding after_login_success
after_login_success-none = refl

token_of_result :
    (params : Account) (code : Option ℕ) (said : Option Text) (d : Option LoginData) (s : LoginForm)
    → s.effects ≡ []
    → (stores_token
          (submit_result params (record { code = code; message = said; data' = d }) s).effects
        ≡ true)
      ↔ ((code ≡ some 1) × (d ≢ none))
unfolding submit_result
token_of_result params code said none s e = ground (arith, after_login_success-none)
token_of_result params code said (some d) s e = ground (arith, after_login_success-token d)

-- A submitted login form with no earlier effects stores a token exactly when the server answers
-- with the code 1 and data.
pub handle_submit-token_iff :
    (params : Account) (p : Promise (Option LoginData)) (s : LoginForm)
    → s.effects ≡ []
    → (stores_token (handle_submit params p s).effects ≡ true) ↔ (
        (b : Body (Option LoginData)) × (p ≡ resolved (some b))
        × (b.code ≡ some 1)
        × (b.data' ≢ none))
unfolding handle_submit
handle_submit-token_iff params pending s e = (λ h. cc, λ x. cc (x.1))
handle_submit-token_iff params (rejected f) s e = (λ h. cc, λ x. cc (x.1))
handle_submit-token_iff params (resolved none) s e = (λ h. cc, λ x. cc (x.1))
handle_submit-token_iff params (resolved (some b)) s e =
    let (to, from) = token_of_result params b.code b.message b.data' s e in
    (
      λ h. (b, refl, (to h).0, (to h).1),
      λ x.
          let same : x.0 ≡ b = cc (x.1) in
          from (subst (λ c. c.code ≡ some 1) same x.2, subst (λ c. c.data' ≢ none) same x.3),
    )
