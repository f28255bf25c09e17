-- ===== src/Tables/Columns/Machines.antt =====
-- The columns of the tables of assets and of sessions (web/src/components/asset, worker, devops, session).
use next_terminal.Base.{true, false, not, List, [], ◌∷◌}
use next_terminal.Base.Text.{Text, codes}
use next_terminal.Assets.Fields.{value_of}
use next_terminal.Views.Columns.{
  Column, Draw, column, sortable, unsearched, choosing, drawn, index_column, option_column, button,
  for_all, disabled_when, offered, entries, buttons, holds, offers,
}
use next_terminal.Tables.Cells.{ago, ago_or_never}
use next_terminal.Tables.Marks.{
  described_name, protocol_tag, network, tag_list, activity, short_name, titled_protocol,
  activity_of_choice, shown_tags, session_protocol, lasting_to, tag_options, protocol_options,
  active_options,
}

unfoldable pub asset_actions : Draw
asset_actions = (λ storage i v row.
    offers
      (offered storage
        (button "asset-access" "接入" ∷ button "asset-edit" "编辑" ∷ button "asset-del" "删除" ∷ []))
      (entries storage (
        button "asset-copy" "复制"
        ∷ button "asset-conn-test" "连通性测试"
        ∷ button "asset-change-owner" "更换所有者"
        ∷ button "asset-detail" "详情"
        ∷ button "asset-authorised-user" "授权用户"
        ∷ button "asset-authorised-user-group" "授权用户组"
        ∷ [])))

unfoldable pub asset_columns : (all_tags : List Text) → List Column
unfolding asset_actions
asset_columns all_tags =
    index_column
    ∷ sortable (drawn (described_name true) (column "名称" "name"))
    ∷ sortable (choosing protocol_options (drawn protocol_tag (column "协议" "protocol")))
    ∷ sortable (drawn network (column "网络" "network"))
    ∷ choosing (tag_options all_tags) (drawn tag_list (column "标签" "tags"))
    ∷ sortable (choosing active_options (drawn activity (column "状态" "active")))
    ∷ unsearched (column "所有者" "ownerName")
    ∷ sortable (unsearched (column "创建时间" "created"))
    ∷ sortable (unsearched (drawn ago_or_never (column "最后接入时间" "lastAccessTime")))
    ∷ option_column asset_actions
    ∷ []

unfoldable pub my_asset_columns : (all_tags : List Text) → List Column
my_asset_columns all_tags =
    index_column
    ∷ sortable (drawn (described_name false) (column "名称" "name"))
    ∷ sortable (choosing protocol_options (drawn protocol_tag (column "协议" "protocol")))
    ∷ choosing (tag_options all_tags) (drawn tag_list (column "标签" "tags"))
    ∷ sortable (choosing active_options (drawn activity (column "状态" "active")))
    ∷ sortable (unsearched (drawn ago_or_never (column "最后接入时间" "lastAccessTime")))
    ∷ option_column (buttons (for_all "接入" ∷ []))
    ∷ []

unfoldable pub selecting_asset_columns : (all_tags : List Text) → List Column
selecting_asset_columns all_tags =
    drawn short_name (column "资产名称" "name")
    ∷ drawn titled_protocol (column "连接协议" "protocol")
    ∷ choosing (tag_options all_tags) (drawn tag_list (column "标签" "tags"))
    ∷ choosing active_options (drawn activity_of_choice (column "状态" "active"))
    ∷ unsearched (column "所有者" "ownerName")
    ∷ unsearched (drawn ago (column "创建时间" "created"))
    ∷ []

unfoldable pub batch_command_columns : List Column
batch_command_columns =
    drawn short_name (column "资产名称" "name")
    ∷ drawn titled_protocol (column "连接协议" "protocol")
    ∷ drawn shown_tags (column "标签" "tags")
    ∷ drawn activity_of_choice (column "状态" "active")
    ∷ column "所有者" "ownerName"
    ∷ drawn ago (column "创建时间" "created")
    ∷ []

unfoldable pub online_session_columns :
    (user_options asset_options : List (Text × Text)) → List Column
online_session_columns user_options asset_options =
    index_column
    ∷ column "来源IP" "clientIp"
    ∷ choosing user_options (column "用户昵称" "creatorName")
    ∷ choosing asset_options (column "资产名称" "assetName")
    ∷ choosing protocol_options (drawn session_protocol (column "连接协议" "protocol"))
    ∷ unsearched (column "接入时间" "connectedTime")
    ∷ unsearched (drawn (lasting_to false) (column "接入时长" "connectedTimeDur"))
    ∷ option_column (
        buttons
          (button "online-session-monitor" "监控" ∷ button "online-session-disconnect" "断开" ∷ []))
    ∷ []

unfoldable pub offline_session_columns :
    (user_options asset_options : List (Text × Text)) → List Column
offline_session_columns user_options asset_options =
    index_column
    ∷ column "来源IP" "clientIp"
    ∷ choosing user_options (column "用户昵称" "creatorName")
    ∷ choosing asset_options (column "资产名称" "assetName")
    ∷ choosing protocol_options (drawn session_protocol (column "连接协议" "protocol"))
    ∷ unsearched (column "接入时间" "connectedTime")
    ∷ unsearched (drawn (lasting_to true) (column "接入时长" "connectedTimeDur"))
    ∷ option_column (λ storage i v row.
      buttons
        (disabled_when (not (holds (value_of (codes "recording") row) "1"))
            (button "offline-session-playback" "回放")
          ∷ button "offline-session-del" "删除"
          ∷ [])
        storage i v row)
    ∷ []
