-- ===== src/Request/Reports.antt =====
-- What the calls of the endpoint classes report of a request that has succeeded.
use next_terminal.Base.{
  ◌≡◌, Bool, true, false, Option, some, List, [], ◌∷◌, ◌++◌, arith, All, All-append,
}
use next_terminal.Base.Text.{Text}
use next_terminal.Request.Handlers.{Body, handle_result}
use next_terminal.Request.Verbs.{
  Answer, answered, resolved, Sent, on_then, settle, post, put, delete, patch,
}
use next_terminal.Request.Api.{
  Async, returns, is_done, await, create, update_by_id, delete_by_id, connect, disconnect, clear,
  resize,
}
use next_terminal.Request.Endpoints.{
  is_failed, logout, delete_access_token, confirm_totp, change_asset_owner, authorised_assets,
  authorised_users, authorised_user_groups, delete_authorised, bind_command_filter,
  unbind_command_filter, bind_login_policy, unbind_login_policy, reset_totp, change_user_status,
  change_job_status, exec_job, delete_log_by_job_id, change_own_password, reset_own_totp,
  change_command_owner, clear_login_logs, clear_storage_logs, change_password,
}

settle-done {ℓ} :
    {A : Type ℓ} (type : Option Text) (b : Body A)
    → b.code ≡ some 1
    → (settle (answered type (some b))).1 ≡ resolved (some b)
unfolding on_then handle_result
settle-done type b h = ground arith

module _ {ℓ κ} {P : Type ℓ} {A : Type κ} (axios : Sent P → Answer A) (token : Text) where
  -- The server answers every request with the code 1.
  pub record Succeeds : Type (ℓ ⊔ κ) where
    pub type : Option Text
    pub body : Body A
    pub answers : (s : Sent P) → axios s ≡ answered type (some body)
    pub code_is_one : body.code ≡ some 1

  settled : (ok : Succeeds) (s : Sent P) → (settle (axios s)).1 ≡ resolved (some ok.body)
  settled ok s = rw (ok.answers s) (settle-done ok.type ok.body ok.code_is_one)

  -- The calls that return whether the code is 1: of the base class for a group, of the sessions, of the
  -- user's own account, of what is bound and authorised, and of the other classes.
  abbrev pub base_calls : (group id : Text) → P → List (Async Bool)
  base_calls group id data' =
      create axios token group data'
      ∷ update_by_id axios token group id data'
      ∷ delete_by_id axios token group id
      ∷ []

  abbrev pub session_calls : (id width height : Text) → List (Async Bool)
  session_calls id width height =
      connect axios token id
      ∷ disconnect axios token id
      ∷ clear axios token
      ∷ resize axios token id width height
      ∷ []

  abbrev pub account_calls : P → List (Async Bool)
  account_calls data' =
      logout axios token
      ∷ delete_access_token axios token
      ∷ change_own_password axios token data'
      ∷ confirm_totp axios token data'
      ∷ reset_own_totp axios token
      ∷ []

  abbrev pub binding_calls : Text → P → List (Async Bool)
  binding_calls id data' =
      authorised_assets axios token data'
      ∷ authorised_users axios token data'
      ∷ authorised_user_groups axios token data'
      ∷ delete_authorised axios token id
      ∷ bind_command_filter axios token id data'
      ∷ unbind_command_filter axios token id data'
      ∷ bind_login_policy axios token id data'
      ∷ unbind_login_policy axios token id data'
      ∷ []

  abbrev pub other_calls : (Text → P) → (id text : Text) → List (Async Bool)
  other_calls form_data id text =
      change_asset_owner axios token id text
      ∷ change_command_owner axios token id text
      ∷ clear_login_logs axios token
      ∷ clear_storage_logs axios token
      ∷ reset_totp axios token id
      ∷ change_password axios token form_data id text
      ∷ []

  abbrev pub done_calls : (Text → P) → (group id text : Text) → P → List (Async Bool)
  done_calls form_data group id text data' =
      base_calls group id data'
      ++ (session_calls id text text
          ++ (account_calls data' ++ (binding_calls id data' ++ other_calls form_data id text)))

  -- The calls that return whether the code is not 1.
  abbrev pub failed_calls : Text → Text → List (Async Bool)
  failed_calls id status =
      change_job_status axios token id status
      ∷ exec_job axios token id
      ∷ delete_log_by_job_id axios token id
      ∷ change_user_status axios token id status
      ∷ []

  told : (ok : Succeeds) (s : Sent P) → await (settle (axios s)).1 is_done ≡ returns true
  told ok s = rw (settled ok s, ok.code_is_one)

  told_failed : (ok : Succeeds) (s : Sent P) → await (settle (axios s)).1 is_failed ≡ returns false
  told_failed ok s = rw (settled ok s, ok.code_is_one)

  abbrev IsTrue : List (Async Bool) → Type 0
  IsTrue calls = All (λ call. call ≡ returns true) calls

  base_calls-Succeeds :
      (group id : Text) (data' : P) → Succeeds → IsTrue (base_calls group id data')
  unfolding create update_by_id delete_by_id post put delete
  base_calls-Succeeds group id data' ok = (told ok _, (told ok _, (told ok _, tt)))

  session_calls-Succeeds :
      (id width height : Text) → Succeeds → IsTrue (session_calls id width height)
  unfolding connect disconnect clear resize post
  session_calls-Succeeds id width height ok = (told ok _, (told ok _, (told ok _, (told ok _, tt))))

  account_calls-Succeeds : (data' : P) → Succeeds → IsTrue (account_calls data')
  unfolding logout delete_access_token change_own_password confirm_totp reset_own_totp post delete
  account_calls-Succeeds data' ok =
      (told ok _, (told ok _, (told ok _, (told ok _, (told ok _, tt)))))

  binding_calls-Succeeds : (id : Text) (data' : P) → Succeeds → IsTrue (binding_calls id data')
  unfolding authorised_assets authorised_users authorised_user_groups delete_authorised
      bind_command_filter unbind_command_filter bind_login_policy unbind_login_policy post delete
  binding_calls-Succeeds id data' ok = (
    told ok _,
    (told ok _, (told ok _, (told ok _, (told ok _, (told ok _, (told ok _, (told ok _, tt))))))),
  )

  other_calls-Succeeds :
      (form_data : Text → P) (id text : Text) → Succeeds → IsTrue (other_calls form_data id text)
  unfolding change_asset_owner change_command_owner clear_login_logs clear_storage_logs reset_totp
      change_password post
  other_calls-Succeeds form_data id text ok =
      (told ok _, (told ok _, (told ok _, (told ok _, (told ok _, (told ok _, tt))))))

  append-IsTrue : (xs ys : List (Async Bool)) → IsTrue xs → IsTrue ys → IsTrue (xs ++ ys)
  append-IsTrue xs ys = All-append (λ call. call ≡ returns true) xs ys

  done_calls-IsTrue :
      (form_data : Text → P) (group id text : Text) (data' : P)
      → Succeeds
      → IsTrue (done_calls form_data group id text data')
  done_calls-IsTrue form_data group id text data' ok =
      let others = other_calls form_data id text in
      let bindings = binding_calls id data' ++ others in
      let accounts = account_calls data' ++ bindings in
      append-IsTrue (base_calls group id data') (session_calls id text text ++ accounts)
        (base_calls-Succeeds group id data' ok)
        (append-IsTrue (session_calls id text text) accounts
          (session_calls-Succeeds id text text ok)
          (append-IsTrue (account_calls data') bindings (account_calls-Succeeds data' ok) (
            append-IsTrue (binding_calls id data') others (binding_calls-Succeeds id data' ok)
              (other_calls-Succeeds form_data id text ok))))

  -- If the server answers every request with the code 1, the calls of the base class, the sessions,
  -- the account, the authorisations and bindings, the owners, the logs and the users that return
  -- whether the code is 1 return true, and those that change or run a job, delete its logs or
  -- change the status of a user return false.
  pub done_calls-Succeeds :
      (form_data : Text → P) (group id text : Text) (data' : P)
      → Succeeds
      → All (λ call. call ≡ returns true) (done_calls form_data group id text data')
        × All (λ call. call ≡ returns false) (failed_calls id text)
  unfolding change_user_status change_job_status exec_job delete_log_by_job_id post delete patch
  done_calls-Succeeds form_data group id text data' ok = (
    done_calls-IsTrue form_data group id text data' ok,
    (told_failed ok _, (told_failed ok _, (told_failed ok _, (told_failed ok _, tt)))),
  )
