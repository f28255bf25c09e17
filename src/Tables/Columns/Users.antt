-- ===== src/Tables/Columns/Users.antt =====
-- The columns of the tables of users, groups and roles, of what they may use, of the rules of the access
-- and of the logins (web/src/components/user, asset, security, log-audit).
use next_terminal.Base.{false, not, List, [], ◌∷◌}
use next_terminal.Base.Text.{Text, codes}
use next_terminal.Assets.Fields.{value_of, text_of}
use next_terminal.Settings.Tabs.{truthy}
use next_terminal.Views.Items.{option}
use next_terminal.Views.Columns.{
  Column, column, sortable, unsearched, of_type, choosing, drawn, index_column, option_column,
  button, for_all, disabled_when, offered, entries, buttons, holds, offers, toggle, dated,
}
use next_terminal.Tables.Cells.{
  linked, name_link, allowed_words, allowed_tag, login_state, browser, logout_time,
}
use next_terminal.Tables.Marks.{includes}

unfoldable pub user_columns : List Column
user_columns =
    index_column
    ∷ sortable (drawn (name_link "user-detail" "/user/") (column "用户昵称" "nickname"))
    ∷ sortable (column "登录账号" "username")
    ∷ column "邮箱" "mail"
    ∷ unsearched
        (drawn (λ storage i v row. toggle false (not (holds v "disabled"))) (column "状态" "status"))
    ∷ sortable (
        choosing (option "true" "在线" ∷ option "false" "离线" ∷ [])
          (of_type "radio" (column "在线状态" "online")))
    ∷ unsearched (column "创建时间" "created")
    ∷ option_column (λ storage i v row.
      offers (offered storage (button "user-edit" "编辑" ∷ button "user-del" "删除" ∷ [])) (
        entries storage (
          button "user-detail" "详情"
          ∷ button "user-authorised-asset" "授权资产"
          ∷ button "user-login-policy" "登录策略"
          ∷ [])))
    ∷ []

unfoldable pub user_group_columns : List Column
user_group_columns =
    index_column
    ∷ drawn (name_link "user-group-detail" "/user-group/") (column "名称" "name")
    ∷ unsearched (column "创建时间" "created")
    ∷ option_column (λ storage i v row.
      offers (offered storage (button "user-group-edit" "编辑" ∷ button "user-group-del" "删除" ∷ [])) (
        entries storage
          (button "user-group-detail" "详情" ∷ button "user-group-authorised-asset" "授权资产" ∷ [])))
    ∷ []

unfoldable pub role_columns : List Column
role_columns =
    index_column
    ∷ drawn (name_link "role-detail" "/role/") (column "名称" "name")
    ∷ sortable (
        choosing (option "default" "内置角色" ∷ option "new" "用户添加" ∷ [])
          (of_type "radio" (column "类型" "type")))
    ∷ unsearched (column "创建时间" "created")
    ∷ option_column (λ storage i v row.
      buttons
        (button "role-detail" "详情"
          ∷ disabled_when (not (truthy (value_of (codes "modifiable") row)))
              (button "role-edit" "编辑")
          ∷ disabled_when (not (truthy (value_of (codes "deletable") row))) (button "role-del" "删除")
          ∷ [])
        storage i v row)
    ∷ []

unfoldable pub user_asset_columns : List Column
user_asset_columns =
    index_column
    ∷ drawn (linked "/asset/" "assetId") (column "资产名称" "assetName")
    ∷ unsearched (drawn (linked "/strategy/" "strategyId") (column "授权策略名称" "strategyName"))
    ∷ unsearched (column "授权日期" "created")
    ∷ option_column (
        buttons (
          record {
            menus = codes "user-unbind-asset" ∷ codes "user-group-unbind-asset" ∷ [];
            label = codes "移除";
            disabled = false;
          }
          ∷ []))
    ∷ []

unfoldable pub user_login_policy_columns : List Column
user_login_policy_columns =
    index_column
    ∷ drawn (linked "/login-policy/" "id") (column "名称" "name")
    ∷ sortable (unsearched (column "优先级" "priority"))
    ∷ unsearched (drawn allowed_words (column "动作" "rule"))
    ∷ option_column (buttons (for_all "解绑" ∷ []))
    ∷ []

unfoldable pub asset_user_columns : List Column
asset_user_columns =
    index_column
    ∷ drawn (linked "/user/" "userId") (column "用户名称" "userName")
    ∷ unsearched (drawn (linked "/strategy/" "strategyId") (column "授权策略名称" "strategyName"))
    ∷ unsearched (column "授权日期" "created")
    ∷ option_column (buttons (button "asset-authorised-user-del" "移除" ∷ []))
    ∷ []

unfoldable pub asset_user_group_columns : List Column
asset_user_group_columns =
    index_column
    ∷ drawn (linked "/user-group/" "userGroupId") (column "用户组名称" "userGroupName")
    ∷ unsearched (drawn (linked "/strategy/" "strategyId") (column "授权策略名称" "strategyName"))
    ∷ unsearched (column "授权日期" "created")
    ∷ option_column (buttons (button "asset-authorised-user-group-del" "移除" ∷ []))
    ∷ []

unfoldable pub security_columns : List Column
security_columns =
    index_column
    ∷ sortable (column "IP" "ip")
    ∷ unsearched (drawn allowed_tag (column "规则" "rule"))
    ∷ sortable (unsearched (column "优先级" "priority"))
    ∷ unsearched (column "来源" "source")
    ∷ option_column
        (buttons (button "access-security-edit" "编辑" ∷ button "access-security-del" "删除" ∷ []))
    ∷ []

unfoldable pub login_policy_columns : List Column
login_policy_columns =
    index_column
    ∷ drawn (name_link "login-policy-detail" "/login-policy/") (column "名称" "name")
    ∷ sortable (unsearched (column "优先级" "priority"))
    ∷ unsearched (drawn allowed_words (column "动作" "rule"))
    ∷ option_column
        (buttons (button "login-policy-edit" "编辑" ∷ button "login-policy-del" "删除" ∷ []))
    ∷ []

unfoldable pub login_policy_user_columns : List Column
login_policy_user_columns =
    index_column
    ∷ column "登录账号" "username"
    ∷ column "昵称" "nickname"
    ∷ column "邮箱" "mail"
    ∷ unsearched (column "创建时间" "created")
    ∷ option_column (buttons (button "login-policy-unbind-user" "解绑" ∷ []))
    ∷ []

unfoldable pub login_policy_bind_columns : (bind_keys : List Text) → List Column
login_policy_bind_columns bind_keys =
    index_column
    ∷ column "登录账号" "username"
    ∷ column "昵称" "nickname"
    ∷ column "邮箱" "mail"
    ∷ unsearched (column "创建时间" "created")
    ∷ option_column (λ storage i v row.
      buttons
        (disabled_when (includes bind_keys (text_of (value_of (codes "id") row))) (for_all "绑定")
          ∷ [])
        storage i v row)
    ∷ []

unfoldable pub login_log_columns : List Column
login_log_columns =
    index_column
    ∷ column "登录账号" "username"
    ∷ column "登录IP" "clientIp"
    ∷ unsearched (drawn login_state (column "登录状态" "state"))
    ∷ unsearched (column "失败原因" "reason")
    ∷ unsearched (drawn browser (column "浏览器" "clientUserAgent"))
    ∷ unsearched (drawn (λ storage i v row. dated v) (column "登录时间" "loginTime"))
    ∷ unsearched (drawn logout_time (column "注销时间" "logoutTime"))
    ∷ option_column (buttons (button "login-log-del" "删除" ∷ []))
    ∷ []
