-- ===== src/Request/Endpoints.antt =====
-- The classes of web/src/api that add calls to the base class, or stand without it: account, asset,
-- authorised, branding, command, command-filter, credential, job, license, login-log, login-policy,
-- permission, role, storage-log, strategy, tag, user, user-group and worker/asset.
use next_terminal.Base.{Bool, false, not, Option, none, some, [], ◌∷◌, ◌++◌, if◌then◌else◌}
use next_terminal.Base.Text.{Text, codes}
use next_terminal.Request.Handlers.{Body, code_is}
use next_terminal.Request.Verbs.{
  Answer, Promise, resolved, rejected, pending, type_error, Sent, get, post, delete, patch,
}
use next_terminal.Request.Api.{
  Async, returns, throws, waits, await, data_or, data_if, is_done, slash,
}

-- `return result['code'] !== 1`
abbrev pub is_failed {ℓ} : {A : Type ℓ} → Body A → Bool
is_failed b = not (code_is b.code 1)

module _ {ℓ κ} {P : Type ℓ} {A : Type κ} (axios : Sent P → Answer A) (token : Text) where
  -- `request.get(url)`, then its data, or `empty` on any code but 1.
  abbrev fetch : Text → A → Async A
  fetch url empty = await (get axios token url).1 (data_or empty)

  -- `request.post(url, data)`, then whether its code is 1.
  abbrev ask : Text → Option P → Async Bool
  ask url data' = await (post axios token url data' []).1 is_done

  -- `AccountApi`
  unfoldable pub logout : Async Bool
  logout = ask (codes "/account/logout") none

  unfoldable pub get_user_info : A → Async A
  get_user_info empty = fetch (codes "/account/info") empty

  unfoldable pub get_access_token : A → Async A
  get_access_token empty = fetch (codes "/account/access-token") empty

  unfoldable pub create_access_token : A → Async A
  create_access_token empty =
      await (post axios token (codes "/account/access-token") none []).1 (data_or empty)

  unfoldable pub delete_access_token : Async Bool
  delete_access_token = await (delete axios token (codes "/account/access-token")).1 is_done

  unfoldable pub change_own_password : P → Async Bool
  change_own_password values = ask (codes "/account/change-password") (some values)

  unfoldable pub reload_totp : A → Async A
  reload_totp empty = fetch (codes "/account/reload-totp") empty

  unfoldable pub confirm_totp : P → Async Bool
  confirm_totp values = ask (codes "/account/confirm-totp") (some values)

  unfoldable pub reset_own_totp : Async Bool
  reset_own_totp = ask (codes "/account/reset-totp") none

  -- `AssetApi`
  unfoldable pub get_assets : A → Text → Async A
  get_assets empty protocol = fetch (codes "/assets?protocol=" ++ protocol) empty

  unfoldable pub change_asset_owner : Text → Text → Async Bool
  change_asset_owner id owner =
      ask (slash (codes "/assets") id ++ (codes "/change-owner?owner=" ++ owner)) none

  unfoldable pub authorised_assets : P → Async Bool
  authorised_assets data' = ask (codes "/authorised/assets") (some data')

  unfoldable pub authorised_users : P → Async Bool
  authorised_users data' = ask (codes "/authorised/users") (some data')

  unfoldable pub authorised_user_groups : P → Async Bool
  authorised_user_groups data' = ask (codes "/authorised/user-groups") (some data')

  unfoldable pub delete_authorised : Text → Async Bool
  delete_authorised id = await (delete axios token (slash (codes "/authorised") id)).1 is_done

  -- `BrandingApi`, `PermissionApi`, `TagApi`, and the license
  unfoldable pub get_branding : A → Async A
  get_branding empty = fetch (codes "/branding") empty

  unfoldable pub get_menus : A → Async A
  get_menus empty = fetch (codes "/menus") empty

  unfoldable pub get_tags : A → Async A
  get_tags empty = fetch (codes "/tags") empty

  unfoldable pub get_license : Async (Option A)
  get_license = await (get axios token (codes "/license")).1 data_if

  unfoldable pub get_machine_id : Async (Option A)
  get_machine_id = await (get axios token (codes "/license/machine-id")).1 data_if

  -- `CommandApi`, `CommandFilterApi`
  unfoldable pub change_command_owner : Text → Text → Async Bool
  change_command_owner id owner =
      ask (slash (codes "/commands") id ++ (codes "/change-owner?owner=" ++ owner)) none

  unfoldable pub bind_command_filter : Text → P → Async Bool
  bind_command_filter id data' =
      ask (slash (slash (codes "/command-filters") id) (codes "bind")) (some data')

  unfoldable pub unbind_command_filter : Text → P → Async Bool
  unbind_command_filter id data' =
      ask (slash (slash (codes "/command-filters") id) (codes "unbind")) (some data')

  unfoldable pub get_asset_id_by_command_filter_id : A → Text → Async A
  get_asset_id_by_command_filter_id empty id =
      fetch (slash (slash (codes "/command-filters") id) (codes "assets/id")) empty

  unfoldable pub get_command_filters : A → Async A
  get_command_filters empty = fetch (codes "/command-filters") empty

  -- `CredentialApi`, `RoleApi`, `StrategyApi`, `UserGroupApi`
  unfoldable pub get_credentials : A → Async A
  get_credentials empty = fetch (codes "/credentials") empty

  unfoldable pub get_roles : A → Async A
  get_roles empty = fetch (codes "/roles") empty

  unfoldable pub get_strategies : A → Async A
  get_strategies empty = fetch (codes "/strategies") empty

  unfoldable pub get_user_groups : A → Async A
  get_user_groups empty = fetch (codes "/user-groups") empty

  -- `LoginLogApi`, `StorageLogApi`
  unfoldable pub clear_login_logs : Async Bool
  clear_login_logs = ask (codes "/login-logs/clear") none

  unfoldable pub clear_storage_logs : Async Bool
  clear_storage_logs = ask (codes "/storage-logs/clear") none

  -- `LoginPolicyApi`
  unfoldable pub bind_login_policy : Text → P → Async Bool
  bind_login_policy id data' =
      ask (slash (slash (codes "/login-policies") id) (codes "bind")) (some data')

  unfoldable pub unbind_login_policy : Text → P → Async Bool
  unbind_login_policy id data' =
      ask (slash (slash (codes "/login-policies") id) (codes "unbind")) (some data')

  unfoldable pub get_user_id_by_login_policy_id : A → Text → Async A
  get_user_id_by_login_policy_id empty id =
      fetch (slash (slash (codes "/login-policies") id) (codes "users/id")) empty

  -- `UserApi`
  unfoldable pub reset_totp : Text → Async Bool
  reset_totp id = ask (slash (slash (codes "/users") id) (codes "reset-totp")) none

  unfoldable pub change_password : (Text → P) → Text → Text → Async Bool
  change_password form_data id password =
      ask (slash (slash (codes "/users") id) (codes "change-password")) (some (form_data password))

  unfoldable pub change_user_status : Text → Text → Async Bool
  change_user_status id status =
      await
        (patch axios token (slash (codes "/users") id ++ (codes "/status?status=" ++ status))
          none).1
        is_failed

  -- `JobApi`
  unfoldable pub change_job_status : Text → Text → Async Bool
  change_job_status id status =
      await
        (post axios token (slash (codes "/jobs") id ++ (codes "/change-status?status=" ++ status))
          none []).1
        is_failed

  unfoldable pub exec_job : Text → Async Bool
  exec_job id =
      await (post axios token (slash (slash (codes "/jobs") id) (codes "exec")) none []).1 is_failed

  unfoldable pub delete_log_by_job_id : Text → Async Bool
  delete_log_by_job_id id =
      await (delete axios token (slash (slash (codes "/jobs") id) (codes "logs"))).1 is_failed

  -- `WorkAssetApi`
  unfoldable pub get_worker_tags : A → Async A
  get_worker_tags empty = fetch (codes "/worker/assets/tags") empty

-- The calls that take the parameters of a query.
module _ {ℓ κ μ} {P : Type ℓ} {A : Type κ} {Q : Type μ} (axios : Sent P → Answer A) (token : Text)
    (stringify : Q → Text) where
  unfoldable pub asset_paging : A → Q → Async A
  asset_paging empty params = fetch axios token (codes "/account/assets?" ++ stringify params) empty

  -- `AuthorisedApi`
  unfoldable pub get_asset_paging : A → Q → Async A
  get_asset_paging empty params =
      fetch axios token (codes "/authorised/assets/paging?" ++ stringify params) empty

  unfoldable pub get_user_paging : A → Q → Async A
  get_user_paging empty params =
      fetch axios token (codes "/authorised/users/paging?" ++ stringify params) empty

  unfoldable pub get_user_group_paging : A → Q → Async A
  get_user_group_paging empty params =
      fetch axios token (codes "/authorised/user-groups/paging?" ++ stringify params) empty

  unfoldable pub get_selected : A → Q → Async A
  get_selected empty params =
      fetch axios token (codes "/authorised/selected?" ++ stringify params) empty

  unfoldable pub get_login_policy_users : A → Text → Q → Async A
  get_login_policy_users empty id params =
      fetch axios token
        (slash (slash (codes "/login-policies") id) (codes "users/paging?" ++ stringify params))
        empty

  unfoldable pub get_log_paging : A → Text → Q → Async A
  get_log_paging empty id params =
      fetch axios token
        (slash (slash (codes "/jobs") id) (codes "logs/paging?" ++ stringify params)) empty

-- `data['active']` and `data['message']` of a test of a connection
pub record ConnTest : Type 0 where
  pub active : Bool
  pub message : Option Text

-- What `connTest` makes of an answer, `[active, message]`; data that is null throws.
unfoldable pub conn_test_result : Promise (Option ConnTest) → Async (Bool × Option Text)
conn_test_result pending = waits
conn_test_result (rejected f) = throws f
conn_test_result (resolved none) = throws type_error
conn_test_result (resolved (some b)) =
    if code_is b.code 1
    then elim (b.data') [
      | none ↦ throws type_error
      | some test ↦ returns (test.active, test.message)
    ]
    else returns (false, b.message)

unfoldable pub conn_test {ℓ} :
    {P : Type ℓ} → (Sent P → Answer (Option ConnTest)) → Text → Text → Async (Bool × Option Text)
unfolding conn_test_result
conn_test axios token id =
    conn_test_result
      (post axios token (slash (slash (codes "/assets") id) (codes "tcping")) none []).1

-- `importAsset` gives the data, or the message of the failure.
pub data Imported {ℓ} (A : Type ℓ) : Type ℓ where
  done : A → Imported A
  refused : Option Text → Imported A

abbrev pub imported {ℓ} : {A : Type ℓ} → Body A → Imported A
imported b = if code_is b.code 1 then done b.data' else refused b.message

unfoldable pub import_asset {ℓ κ} :
    {P : Type ℓ} {A : Type κ} → (Sent P → Answer A) → Text → P → Async (Imported A)
import_asset axios token form_data =
    await
      (post axios token (codes "/assets/import") (some form_data)
        ((codes "Content-Type", codes "multipart/form-data") ∷ [])).1
      imported
