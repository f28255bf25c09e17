-- ===== src/Tables/Bindings.antt =====
-- What binds records to one another: the dialogues of the authorisations
-- (web/src/components/asset/AssetUser.js, AssetUserGroup.js, AssetUserBind.js and AssetUserGroupBind.js,
-- web/src/components/user/user/UserAsset.js and UserAuthorised.js) and the users of a login policy
-- (web/src/components/security/LoginPolicyBind.js and LoginPolicyUser.js).
use next_terminal.Base.{ℕ, suc, Bool, false, List, [], ◌∷◌, ◌++◌, if◌then◌else◌, any}
use next_terminal.Base.Text.{Text, codes, text_eq}
use next_terminal.Request.Verbs.{Answer, Sent}
use next_terminal.Request.Api.{Async}
use next_terminal.Request.Endpoints.{
  authorised_users, authorised_user_groups, authorised_assets, delete_authorised, bind_login_policy,
  unbind_login_policy,
}
use next_terminal.Tables.Actions.{behind}

-- A page with a dialogue that binds.
pub record Binding : Type 0 where
  pub visible : Bool
  pub confirm_loading : Bool
  pub reloads : ℕ

-- The `handleOk` of the three pages does not await its request: it goes on with a promise, which
-- counts as true. The pair is the page after `handleOk`, and what the request ends with later.
abbrev not_awaited : Async Bool → Binding → Binding × Async Bool
not_awaited request page =
    (record { visible = false; confirm_loading = false; reloads = suc page.reloads }, request)

-- An option of a select: a record that is bound already cannot be chosen.
pub record Choosable : Type 0 where
  pub value : Text
  pub label : Text
  pub disabled : Bool

unfoldable pub options_of : List Text → List (Text × Text) → List Choosable
options_of selected [] = []
options_of selected ((id, name) ∷ items) =
    record { value = id; label = name; disabled = any (text_eq id) selected }
    ∷ options_of selected items

-- The query for what is bound: by a user or by a group of users.
unfoldable pub selected_query : (type id : Text) → List (Text × Text)
selected_query type id =
    (codes "key", codes "assetId")
    ∷ (if text_eq type (codes "userId") then (codes "userId", id) else (codes "userGroupId", id))
    ∷ []

unfoldable pub selected_users_query : Text → List (Text × Text)
selected_users_query id = (codes "key", codes "userId") ∷ (codes "assetId", id) ∷ []

unfoldable pub selected_user_groups_query : Text → List (Text × Text)
selected_user_groups_query id = (codes "key", codes "userGroupId") ∷ (codes "assetId", id) ∷ []

module _ {ℓ κ} {P : Type ℓ} {A : Type κ} (axios : Sent P → Answer A) (token : Text) where
  -- `with_id` sets `values['assetId']`, or `values[type]`.
  unfoldable pub user_bind_ok : (with_id : P → P) → P → Binding → Binding × Async Bool
  user_bind_ok with_id values page =
      not_awaited (authorised_users axios token (with_id values)) page

  unfoldable pub user_group_bind_ok : (with_id : P → P) → P → Binding → Binding × Async Bool
  user_group_bind_ok with_id values page =
      not_awaited (authorised_user_groups axios token (with_id values)) page

  unfoldable pub asset_bind_ok : (with_id : P → P) → P → Binding → Binding × Async Bool
  asset_bind_ok with_id values page =
      not_awaited (authorised_assets axios token (with_id values)) page

  unfoldable pub remove_binding : Text → Binding → Binding
  remove_binding id page =
      behind (delete_authorised axios token id) (λ p. record p { reloads = suc p.reloads }) page

  -- The keys that are bound, and the reloads of the table.
  unfoldable pub handle_bind :
      (users : Text → P) → (policy user : Text) → List Text × ℕ → List Text × ℕ
  handle_bind users policy user bound =
      behind (bind_login_policy axios token policy (users user)) (λ b. (b.0 ++ user ∷ [], suc b.1))
        bound

  unfoldable pub handle_unbind : (users : Text → P) → (policy user : Text) → ℕ → ℕ
  handle_unbind users policy user reloads =
      behind (unbind_login_policy axios token policy (users user)) (λ n. suc n) reloads
