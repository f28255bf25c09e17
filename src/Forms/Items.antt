-- ===== src/Forms/Items.antt =====
-- The items of the dialogues (web/src/components): of a credential, a gateway, a command, a strategy, a
-- job, a storage, a rule of the access, a login policy, a role, a group of users, a user and a password.
use next_terminal.Base.{Option, none, some, List, [], ◌∷◌, ◌++◌, if◌then◌else◌}
use next_terminal.Base.Text.{Text, codes}
use next_terminal.Settings.Properties.{pos, negsuc}
use next_terminal.Assets.Form.{is}
use next_terminal.Forms.Opening.{given}
use next_terminal.Views.Items.{
  Item, plain, must, starting, checked, email, option, id_item, area, own, number, select, radio,
  multiple, switch, input, text_input, password_input,
}

unfoldable pub access_gateway_items : (account_type : Option Text) → List Item
access_gateway_items account_type =
    (id_item
      ∷ must (plain "name" "网关名称" text_input)
      ∷ must (plain "ip" "主机" text_input)
      ∷ must (plain "port" "端口号" (number (pos 1) (some (pos 65535))))
      ∷ must (
          plain "accountType" "账户类型"
            (select (option "password" "密码" ∷ option "private-key" "密钥" ∷ [])))
      ∷ [])
    ++ (if is account_type (codes "password")
        then must (plain "username" "授权账户" text_input)
          ∷ must (plain "password" "授权密码" password_input)
          ∷ []
        else must (plain "username" "授权账户" text_input)
          ∷ must (plain "privateKey" "私钥" area)
          ∷ plain "passphrase" "私钥密码" area
          ∷ [])

unfoldable pub credential_items :
    (account_types : List (Text × Text)) → (type' : Option Text) → List Item
credential_items account_types type' =
    (id_item
      ∷ must (plain "name" "凭证名称" text_input)
      ∷ must (plain "type" "账户类型" (select account_types))
      ∷ [])
    ++ (if is type' (codes "private-key")
        then plain "username" "授权账户" text_input
          ∷ must (plain "privateKey" "私钥" area)
          ∷ plain "passphrase" "私钥密码" area
          ∷ []
        else plain "username" "授权账户" text_input ∷ plain "password" "授权密码" password_input ∷ [])

unfoldable pub command_items : List Item
command_items =
    id_item ∷ must (plain "name" "指令名称" text_input) ∷ must (plain "content" "指令内容" area) ∷ []

unfoldable pub strategy_items : List Item
strategy_items =
    id_item
    ∷ must (plain "name" "名称" text_input)
    ∷ must (plain "upload" "上传" switch)
    ∷ must (plain "download" "下载" switch)
    ∷ must (plain "edit" "编辑" switch)
    ∷ must (plain "delete" "删除" switch)
    ∷ must (plain "rename" "重命名" switch)
    ∷ must (plain "copy" "复制" switch)
    ∷ must (plain "paste" "粘贴" switch)
    ∷ []

-- `options` are the assets that can be chosen.
unfoldable pub job_items : (func mode : Option Text) → (options : List (Text × Text)) → List Item
job_items func mode options =
    (id_item
      ∷ must (
          starting "shell-job" (
            plain "func" "任务类型" (
              select
                (option "shell-job" "Shell脚本" ∷ option "check-asset-status-job" "资产状态检测" ∷ []))))
      ∷ must (plain "name" "任务名称" text_input)
      ∷ [])
    ++ (if is func (codes "shell-job") then must (plain "shell" "Shell脚本" area) ∷ [] else [])
    ++ (must (plain "cron" "cron表达式" text_input)
        ∷ must (
            starting "all" (
              plain "mode" "资产选择"
                (radio (option "all" "全部资产" ∷ option "custom" "自定义" ∷ option "self" "本机" ∷ []))))
        ∷ [])
    ++ (if is mode (codes "custom")
        then must (plain "resourceIds" "已选择资产" (multiple options)) ∷ []
        else [])

unfoldable pub storage_items : List Item
storage_items =
    id_item
    ∷ must (plain "name" "名称" text_input)
    ∷ must (plain "isShare" "是否共享" switch)
    ∷ must (plain "limitSize" "大小限制" (number (negsuc 0) none))
    ∷ []

unfoldable pub security_items : List Item
security_items =
    id_item
    ∷ must (plain "ip" "IP地址" text_input)
    ∷ must (plain "rule" "规则" (radio (option "allow" "允许" ∷ option "reject" "拒绝" ∷ [])))
    ∷ must (plain "priority" "优先级" (number (pos 1) (some (pos 100))))
    ∷ []

unfoldable pub login_policy_items : List Item
login_policy_items =
    id_item
    ∷ must (plain "name" "名称" text_input)
    ∷ must (plain "priority" "优先级" (number (pos 1) (some (pos 100))))
    ∷ must (plain "ipGroup" "IP地址" text_input)
    ∷ plain "timePeriod" "时段" own
    ∷ must (plain "rule" "规则" (radio (option "allow" "允许" ∷ option "reject" "拒绝" ∷ [])))
    ∷ must (plain "enabled" "激活" switch)
    ∷ []

unfoldable pub role_items : List Item
role_items = id_item ∷ must (plain "name" "名称" text_input) ∷ must (plain "menus" "权限" own) ∷ []

unfoldable pub user_group_items : (users : List (Text × Text)) → List Item
user_group_items users =
    id_item ∷ must (plain "name" "名称" text_input) ∷ plain "members" "用户组成员" (multiple users) ∷ []

-- A password is asked for where the user is new.
unfoldable pub user_items :
    (user_type : Option Text) → (roles : List (Text × Text)) → (id : Option Text) → List Item
user_items user_type roles id =
    (id_item
      ∷ must (plain "username" "登录账户" text_input)
      ∷ must (plain "nickname" "昵称" text_input)
      ∷ must (plain "type" "类型" (radio (option "user" "普通用户" ∷ option "admin" "管理用户" ∷ [])))
      ∷ [])
    ++ (if is user_type (codes "admin")
        then must (plain "roles" "角色" (multiple roles)) ∷ []
        else [])
    ++ (checked email (plain "mail" "邮箱" (input (codes "email"))) ∷ [])
    ++ (if given id then [] else must (plain "password" "登录密码" (input (codes "password"))) ∷ [])

unfoldable pub change_password_items : List Item
change_password_items = must (plain "password" "" text_input) ∷ []
