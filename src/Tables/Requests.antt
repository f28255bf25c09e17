-- ===== src/Tables/Requests.antt =====
-- The `request` function of each table: the query that it sends and what it shows.
use next_terminal.Base.{
  Bool, true, false, Option, none, some, List, [], ◌∷◌, ◌++◌, map, if◌then◌else◌, get_elem?,
}
use next_terminal.Base.Text.{Text, codes, text_eq, has_text, split}
use next_terminal.Request.Verbs.{Answer, Sent, type_error}
use next_terminal.Request.Api.{Async, returns, throws, waits, get_paging}
use next_terminal.Request.Endpoints.{
  get_asset_paging, get_user_paging, get_user_group_paging, get_login_policy_users, get_log_paging,
}
use next_terminal.Tables.Paging.{
  Params, Sort, Query, first_sort, found, queried, page_of, tags_of, Paging, no_paging, Shown,
  shown, after,
}

module _ {ℓ κ} {P : Type ℓ} {I : Type κ} (axios : Sent P → Answer (Paging I)) (token : Text)
    (stringify : Query → Text) where
  -- `await api.getPaging(queryParams)`, and the rows that are returned.
  abbrev pub paged : Text → Query → Async (Shown I)
  paged group query = after (get_paging axios token stringify group no_paging query) shown

  unfoldable pub credential_request : Params → Sort → Async (Shown I)
  credential_request params sort =
      paged (codes "credentials") (queried params (found params (codes "name") ∷ []) sort)

  unfoldable pub command_request : Params → Sort → Async (Shown I)
  command_request params sort =
      paged (codes "commands") (queried params (found params (codes "name") ∷ []) sort)

  unfoldable pub access_gateway_request : Params → Sort → Async (Shown I)
  access_gateway_request params sort =
      paged (codes "access-gateways") (queried params (found params (codes "name") ∷ []) sort)

  unfoldable pub storage_request : Params → Sort → Async (Shown I)
  storage_request params sort =
      paged (codes "storages") (queried params (found params (codes "name") ∷ []) sort)

  unfoldable pub security_request : Params → Sort → Async (Shown I)
  security_request params sort =
      paged (codes "securities") (queried params (found params (codes "name") ∷ []) sort)

  unfoldable pub login_policy_request : Params → Sort → Async (Shown I)
  login_policy_request params sort =
      paged (codes "login-policies") (queried params (found params (codes "name") ∷ []) sort)

  unfoldable pub strategy_request : Params → Sort → Async (Shown I)
  strategy_request params sort =
      paged (codes "strategies") (queried params (found params (codes "name") ∷ []) sort)

  unfoldable pub user_request : Params → Sort → Async (Shown I)
  user_request params sort = paged (codes "users") (
      queried params
        (found params (codes "nickname")
          ∷ found params (codes "username")
          ∷ found params (codes "mail")
          ∷ found params (codes "online")
          ∷ [])
        sort)

  unfoldable pub role_request : Params → Sort → Async (Shown I)
  role_request params sort =
      paged (codes "roles")
        (queried params (found params (codes "name") ∷ found params (codes "type") ∷ []) sort)

  unfoldable pub user_group_request : Params → Sort → Async (Shown I)
  user_group_request params sort =
      paged (codes "user-groups") (queried params (found params (codes "name") ∷ []) sort)

  unfoldable pub my_command_request : Params → Sort → Async (Shown I)
  my_command_request params sort =
      paged (codes "worker/commands") (queried params (found params (codes "name") ∷ []) sort)

  unfoldable pub login_log_request : Params → Sort → Async (Shown I)
  login_log_request params sort =
      paged (codes "login-logs") (
        queried params (found params (codes "username") ∷ found params (codes "clientIp") ∷ [])
          sort)

  unfoldable pub my_asset_request : Params → Sort → Async (Shown I)
  my_asset_request params sort = paged (codes "worker/assets") (
      queried params
        (found params (codes "name")
          ∷ found params (codes "type")
          ∷ found params (codes "protocol")
          ∷ found params (codes "active")
          ∷ tags_of params
          ∷ [])
        sort)

  unfoldable pub selecting_asset_request : Params → Sort → Async (Shown I)
  selecting_asset_request params sort = paged (codes "assets") (
      queried params
        (found params (codes "name")
          ∷ (codes "protocol", some (codes "ssh"))
          ∷ found params (codes "active")
          ∷ tags_of params
          ∷ [])
        sort)

  unfoldable pub online_session_request : Params → Sort → Async (Shown I)
  online_session_request params sort = paged (codes "sessions") (
      queried params (found params (codes "protocol") ∷ []) sort
      ++ (codes "status", some (codes "connected")) ∷ [])

  unfoldable pub offline_session_request : Params → Sort → Async (Shown I)
  offline_session_request params sort = paged (codes "sessions") (
      queried params
        (found params (codes "protocol")
          ∷ found params (codes "clientIp")
          ∷ (codes "userId", params.search (codes "creatorName"))
          ∷ (codes "assetId", params.search (codes "assetName"))
          ∷ [])
        sort
      ++ (codes "status", some (codes "disconnected")) ∷ [])

  unfoldable pub job_log_request : Text → Params → Sort → Async (Shown I)
  job_log_request id params sort =
      after
        (get_log_paging axios token stringify no_paging id
          (queried params (found params (codes "name") ∷ []) sort))
        shown

  unfoldable pub login_policy_user_request : Text → Params → Sort → Async (Shown I)
  login_policy_user_request id params sort =
      after
        (get_login_policy_users axios token stringify no_paging id
          (queried params (found params (codes "name") ∷ []) sort))
        shown

  -- Without a user nothing is asked.
  unfoldable pub user_login_policy_request : Text → Params → Sort → Async (Shown I)
  user_login_policy_request user_id params sort =
      if has_text user_id
      then paged (codes "login-policies")
          (queried params (found params (codes "name") ∷ (codes "userId", some user_id) ∷ []) sort)
      else returns (record { rows = some []; success = true; total = some 0 })

  -- `queryParams[type] = id`, behind the others
  unfoldable pub user_asset_request : (type id : Text) → Params → Sort → Async (Shown I)
  user_asset_request type id params sort =
      after
        (get_asset_paging axios token stringify no_paging
          (queried params (found params (codes "name") ∷ []) sort ++ (type, some id) ∷ []))
        shown

  unfoldable pub asset_user_request : Text → Params → Sort → Async (Shown I)
  asset_user_request id params sort =
      after
        (get_user_paging axios token stringify no_paging
          (queried params (found params (codes "name") ∷ (codes "assetId", some id) ∷ []) sort))
        shown

  unfoldable pub asset_user_group_request : Text → Params → Sort → Async (Shown I)
  asset_user_group_request id params sort =
      after
        (get_user_group_paging axios token stringify no_paging
          (queried params (found params (codes "name") ∷ (codes "assetId", some id) ∷ []) sort))
        shown

  -- The search for a network is cut at its colons.
  unfoldable pub network_of : Option Text → Option Text × Option Text
  network_of none = (none, none)
  network_of (some network) =
      let parts = split b':' network in
      if has_text network then (get_elem? parts 0, get_elem? parts 1) else (none, none)

  -- The table of the assets shows the column of the network by the address.
  abbrev pub asset_field : Text → Text
  asset_field field = if text_eq field (codes "network") then codes "ip" else field

  unfoldable pub asset_query : Params → Sort → Query
  unfolding network_of
  asset_query params sort =
      let (ip, port) = network_of (params.search (codes "network")) in
      let (field, order) = first_sort sort in
      page_of params
      ++ (found params (codes "name")
          ∷ found params (codes "type")
          ∷ found params (codes "protocol")
          ∷ found params (codes "active")
          ∷ tags_of params
          ∷ (codes "ip", ip)
          ∷ (codes "port", port)
          ∷ (codes "field", some (asset_field field))
          ∷ (codes "order", some order)
          ∷ [])

  -- The items are kept too; what is returned holds those of the rendering before (`items`).
  unfoldable pub asset_request : Option (List I) → Params → Sort → Async (Option (List I) × Shown I)
  unfolding asset_query
  asset_request items params sort =
      after (get_paging axios token stringify (codes "assets") no_paging (asset_query params sort))
        (λ result. (result.items, record (shown result) { rows = items }))

  -- `for (let i = 0; i < items.length; i++) execLoading.push(false)`, which throws without items.
  unfoldable pub job_shown : List Bool → Async (Paging I) → Async (List Bool × Shown I)
  job_shown exec_loading (returns result) = elim (result.items) [
    | none ↦ throws type_error
    | some items ↦ returns (exec_loading ++ map (λ i. false) items, shown result)
  ]
  job_shown exec_loading (throws f) = throws f
  job_shown exec_loading waits = waits

  unfoldable pub job_request : List Bool → Params → Sort → Async (List Bool × Shown I)
  unfolding job_shown
  job_request exec_loading params sort = job_shown exec_loading (
      get_paging axios token stringify (codes "jobs") no_paging
        (queried params (found params (codes "name") ∷ []) sort))

  unfoldable pub batch_command_request : Params → Sort → Async (Shown I)
  batch_command_request params sort = paged (codes "assets") (
      queried params (found params (codes "name") ∷ (codes "protocol", some (codes "ssh")) ∷ [])
        sort)

  unfoldable pub login_policy_bind_request : Params → Sort → Async (Shown I)
  login_policy_bind_request params sort =
      paged (codes "users") (queried params (found params (codes "name") ∷ []) sort)

abbrev pub worker_url : (protocol id name : Text) → Text
worker_url protocol id name =
    if text_eq protocol (codes "ssh")
    then codes "#/term?assetId=" ++ id ++ codes "&assetName=" ++ name ++ codes "&isWorker=true"
    else codes "#/access?assetId="
      ++ id
      ++ codes "&assetName="
      ++ name
      ++ codes "&protocol="
      ++ protocol
