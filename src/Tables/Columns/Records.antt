-- ===== src/Tables/Columns/Records.antt =====
-- The columns of the tables of credentials, gateways, commands, storages, jobs and of what may be done
-- (web/src/components/asset, devops, authorised, worker).
use next_terminal.Base.{not, List, [], ◌∷◌, Bool}
use next_terminal.Base.Text.{codes}
use next_terminal.Layout.Permission.{has_menu}
use next_terminal.Assets.Fields.{value_of}
use next_terminal.Settings.Tabs.{truthy}
use next_terminal.Views.Columns.{
  Column, column, sortable, unsearched, of_type, drawn, index_column, option_column, button,
  for_all, disabled_when, buttons, holds, toggle, size,
}
use next_terminal.Tables.Cells.{
  key_or_password, connection, name_link, yes_no, size_limit, job_kind, ago, ago_or_never,
  render_status,
}
use next_terminal.Tables.Marks.{at_index}

unfoldable pub credential_columns : List Column
credential_columns =
    index_column
    ∷ column "名称" "name"
    ∷ unsearched (drawn key_or_password (column "凭证类型" "type"))
    ∷ unsearched (column "授权账户" "username")
    ∷ unsearched (column "所有者" "ownerName")
    ∷ unsearched (column "创建时间" "created")
    ∷ option_column (buttons (button "credential-edit" "编辑" ∷ button "credential-del" "删除" ∷ []))
    ∷ []

unfoldable pub access_gateway_columns : List Column
access_gateway_columns =
    index_column
    ∷ column "名称" "name"
    ∷ sortable (unsearched (column "IP" "ip"))
    ∷ unsearched (column "端口" "port")
    ∷ unsearched (drawn key_or_password (column "账户类型" "accountType"))
    ∷ unsearched (column "授权账户" "username")
    ∷ unsearched (drawn connection (column "状态" "connected"))
    ∷ unsearched (column "创建时间" "created")
    ∷ option_column
        (buttons (button "access-gateway-edit" "编辑" ∷ button "access-gateway-del" "删除" ∷ []))
    ∷ []

unfoldable pub command_columns : List Column
command_columns =
    index_column
    ∷ column "名称" "name"
    ∷ column "内容" "content"
    ∷ unsearched (column "所有者" "ownerName")
    ∷ unsearched (column "创建时间" "created")
    ∷ option_column (
        buttons (
          button "command-exec" "执行"
          ∷ button "command-edit" "编辑"
          ∷ button "command-change-owner" "更换所有者"
          ∷ button "command-del" "删除"
          ∷ []))
    ∷ []

unfoldable pub my_command_columns : List Column
my_command_columns =
    index_column
    ∷ column "名称" "name"
    ∷ column "内容" "content"
    ∷ unsearched (column "创建时间" "created")
    ∷ option_column (buttons (for_all "编辑" ∷ for_all "删除" ∷ []))
    ∷ []

unfoldable pub strategy_columns : List Column
strategy_columns =
    index_column
    ∷ sortable (drawn (name_link "strategy-detail" "/strategy/") (column "名称" "name"))
    ∷ unsearched (drawn render_status (column "上传" "upload"))
    ∷ unsearched (drawn render_status (column "下载" "download"))
    ∷ unsearched (drawn render_status (column "编辑" "edit"))
    ∷ unsearched (drawn render_status (column "删除" "delete"))
    ∷ unsearched (drawn render_status (column "重命名" "rename"))
    ∷ unsearched (drawn render_status (column "复制" "copy"))
    ∷ unsearched (drawn render_status (column "粘贴" "paste"))
    ∷ unsearched (column "创建时间" "created")
    ∷ option_column (
        buttons (
          button "strategy-detail" "详情"
          ∷ button "strategy-edit" "编辑"
          ∷ button "strategy-del" "删除"
          ∷ []))
    ∷ []

unfoldable pub storage_columns : List Column
storage_columns =
    index_column
    ∷ column "名称" "name"
    ∷ unsearched (drawn yes_no (column "是否共享" "isShare"))
    ∷ unsearched (drawn yes_no (column "是否默认" "isDefault"))
    ∷ unsearched (drawn size_limit (column "大小限制" "limitSize"))
    ∷ unsearched (drawn (λ storage i v row. size v) (column "已用大小" "usedSize"))
    ∷ unsearched (column "所属用户" "ownerName")
    ∷ option_column (λ storage i v row.
      buttons
        (button "storage-browse" "浏览"
          ∷ button "storage-edit" "编辑"
          ∷ disabled_when (truthy (value_of (codes "isDefault") row)) (button "storage-del" "删除")
          ∷ [])
        storage i v row)
    ∷ []

unfoldable pub job_columns : (exec_loading : List Bool) → List Column
job_columns exec_loading =
    index_column
    ∷ sortable (column "任务名称" "name")
    ∷ unsearched (
        drawn
          (λ storage i v row.
            toggle (not (has_menu storage (codes "job-change-status" ∷ []))) (holds v "running"))
          (column "状态" "status"))
    ∷ unsearched (drawn job_kind (column "任务类型" "func"))
    ∷ unsearched (column "cron表达式" "cron")
    ∷ sortable (unsearched (drawn ago (column "创建日期" "created")))
    ∷ sortable (unsearched (drawn ago_or_never (column "最后执行日期" "updated")))
    ∷ option_column (λ storage i v row.
      buttons
        (disabled_when (at_index exec_loading i) (button "job-run" "执行")
          ∷ button "job-log" "日志"
          ∷ button "job-edit" "编辑"
          ∷ button "job-del" "删除"
          ∷ [])
        storage i v row)
    ∷ []

unfoldable pub job_log_columns : List Column
job_log_columns =
    index_column
    ∷ sortable (unsearched (column "执行时间" "timestamp"))
    ∷ unsearched (of_type "code" (column "日志" "message"))
    ∷ []
