-- ===== src/Tables/Toolbars.antt =====
-- The buttons over the tables (`toolBarRender` of the pages of web/src/components): their texts, the
-- menus that show them, and when they can be taken; and under which keys the tables keep their columns.
use next_terminal.Base.{ℕ, ◌==◌, Bool, true, not, List, [], ◌∷◌, if◌then◌else◌}
use next_terminal.Base.Text.{Text, codes}
use next_terminal.Layout.Permission.{Storage, has_menu}
use Prim.Native.String.{String}

-- Whether a button waits for selected rows, or for rows at all.
pub data Needs : Type 0 where
  nothing selection rows : Needs

-- Without menus a button is shown to everyone.
pub record Tool : Type 0 where
  pub label : Text
  pub menus : List Text
  pub needs : Needs

abbrev tool : (label menu : String) → Tool
tool label menu = record { label = codes label; menus = codes menu ∷ []; needs = nothing }

abbrev on : Needs → Tool → Tool
on needs tool' = record tool' { needs = needs }

abbrev free : String → Tool
free label = record { label = codes label; menus = []; needs = nothing }

unfoldable pub user_tools : List Tool
user_tools =
    tool "新建" "user-add"
    ∷ on selection (tool "修改密码" "user-change-password")
    ∷ on selection (tool "重置双因素认证" "user-reset-totp")
    ∷ []

unfoldable pub asset_tools : List Tool
asset_tools =
    tool "新建" "asset-add"
    ∷ tool "导入" "asset-import"
    ∷ on selection (tool "删除" "asset-del")
    ∷ on selection (tool "连通性测试" "asset-conn-test")
    ∷ []

unfoldable pub user_asset_tools : List Tool
user_asset_tools =
    record {
      label = codes "授权";
      menus = codes "user-bind-asset" ∷ codes "user-group-bind-asset" ∷ [];
      needs = nothing;
    }
    ∷ []

unfoldable pub role_tools : List Tool
role_tools = tool "新建" "role-add" ∷ []

unfoldable pub user_group_tools : List Tool
user_group_tools = tool "新建" "user-group-add" ∷ []

unfoldable pub asset_user_group_tools : List Tool
asset_user_group_tools = tool "授权" "asset-authorised-user-group-add" ∷ []

unfoldable pub asset_user_tools : List Tool
asset_user_tools = tool "授权" "asset-authorised-user-add" ∷ []

unfoldable pub command_tools : List Tool
command_tools = tool "新建" "command-add" ∷ []

unfoldable pub access_gateway_tools : List Tool
access_gateway_tools = tool "新建" "access-gateway-add" ∷ []

unfoldable pub credential_tools : List Tool
credential_tools = tool "新建" "credential-add" ∷ []

unfoldable pub job_tools : List Tool
job_tools = tool "新建" "job-add" ∷ []

unfoldable pub job_log_tools : List Tool
job_log_tools = free "清空" ∷ []

unfoldable pub storage_tools : List Tool
storage_tools = tool "新建" "storage-add" ∷ []

unfoldable pub strategy_tools : List Tool
strategy_tools = tool "新建" "strategy-add" ∷ []

unfoldable pub login_log_tools : List Tool
login_log_tools =
    on selection (tool "删除" "login-log-del") ∷ on rows (tool "清空" "login-log-clear") ∷ []

unfoldable pub my_command_tools : List Tool
my_command_tools = free "新建" ∷ []

unfoldable pub offline_session_tools : List Tool
offline_session_tools =
    on selection (tool "删除" "offline-session-del") ∷ tool "清空" "offline-session-clear" ∷ []

unfoldable pub login_policy_tools : List Tool
login_policy_tools = tool "新建" "login-policy-add" ∷ []

unfoldable pub login_policy_user_tools : List Tool
login_policy_user_tools = tool "绑定" "login-policy-bind-user" ∷ []

unfoldable pub security_tools : List Tool
security_tools = tool "新建" "access-security-add" ∷ []

abbrev ready : (selected total : ℕ) → Needs → Bool
ready selected total nothing = true
ready selected total selection = not (selected == 0)
ready selected total rows = not (total == 0)

abbrev is_shown : Storage → List Text → Bool
is_shown storage [] = true
is_shown storage (menu ∷ menus) = has_menu storage (menu ∷ menus)

-- The buttons that a user is shown, with whether each can be taken.
unfoldable pub shown_tools : Storage → (selected total : ℕ) → List Tool → List (Text × Bool)
unfolding has_menu
shown_tools storage selected total [] = []
shown_tools storage selected total (tool' ∷ tools) =
    let rest = shown_tools storage selected total tools in
    if is_shown storage tool'.menus
    then (tool'.label, ready selected total tool'.needs) ∷ rest
    else rest

pub data Page : Type 0 where
  users roles user_groups assets commands access_gateways credentials jobs storages strategies :
      Page
  login_logs online_sessions offline_sessions login_policies securities : Page

-- `useColumnState` of the page; the commands use the key of the credentials.
unfoldable pub column_key : Page → Text
column_key users = codes "cs-user"
column_key roles = codes "cs-role"
column_key user_groups = codes "cs-user-group"
column_key assets = codes "cs-asset"
column_key commands = codes "cs-credential"
column_key access_gateways = codes "cs-access-gateway"
column_key credentials = codes "cs-credential"
column_key jobs = codes "cs-job"
column_key storages = codes "cs-storage"
column_key strategies = codes "cs-strategy"
column_key login_logs = codes "cs-login-log"
column_key online_sessions = codes "cs-online-session"
column_key offline_sessions = codes "cs-offline-session"
column_key login_policies = codes "cs-login-policy"
column_key securities = codes "cs-access-security"
