-- ===== src/Settings/Tabs.antt =====
-- The forms in the tabs of the settings (web/src/components/setting/Setting.js).
use next_terminal.Base.{zero, Bool, true, false, not, Option, none, some, List, [], ◌∷◌, ◌++◌}
use next_terminal.Base.Text.{Text, codes}
use next_terminal.Settings.Properties.{pos, negsuc}
use next_terminal.Assets.Fields.{Fields, Value, text, flag, value_of, assign}
use next_terminal.Views.Items.{
  Item, plain, must, starting, checked, email, length_between, disabled_if, option, select, switch,
  number, input, text_input,
}

unfoldable pub rdp_items : List Item
rdp_items =
    must (plain "enable-wallpaper" "启用桌面墙纸" switch)
    ∷ must (plain "enable-theming" "启用桌面主题" switch)
    ∷ must (plain "enable-font-smoothing" "启用字体平滑（ClearType）" switch)
    ∷ must (plain "enable-full-window-drag" "启用全窗口拖拽" switch)
    ∷ must (plain "enable-desktop-composition" "启用桌面合成效果（Aero）" switch)
    ∷ must (plain "enable-menu-animations" "启用菜单动画" switch)
    ∷ must (plain "disable-bitmap-caching" "禁用位图缓存" switch)
    ∷ must (plain "disable-offscreen-caching" "禁用离屏缓存" switch)
    ∷ []

unfoldable pub telnet_items : List Item
telnet_items =
    must (
      starting "gray-black" (
        plain "color-scheme" "配色方案" (
          select (
            option "gray-black" "黑底灰字"
            ∷ option "green-black" "黑底绿字"
            ∷ option "white-black" "黑底白字"
            ∷ option "black-white" "白底黑字"
            ∷ []))))
    ∷ must (plain "font-name" "字体名称" text_input)
    ∷ must (plain "font-size" "字体大小" (input (codes "number")))
    ∷ starting "" (
        plain "backspace" "退格键映射"
          (select (option "" "默认" ∷ option "127" "删除键(Ctrl-?)" ∷ option "8" "退格键(Ctrl-H)" ∷ [])))
    ∷ starting "" (
        plain "terminal-type" "终端类型" (
          select (
            option "" "默认"
            ∷ option "ansi" "ansi"
            ∷ option "linux" "linux"
            ∷ option "vt100" "vt100"
            ∷ option "vt220" "vt220"
            ∷ option "xterm" "xterm"
            ∷ option "xterm-256color" "xterm-256color"
            ∷ [])))
    ∷ []

unfoldable pub vnc_items : List Item
vnc_items =
    starting "" (
      plain "color-depth" "色彩深度" (
        select (
          option "" "默认"
          ∷ option "16" "低色（16位）"
          ∷ option "24" "真彩（24位）"
          ∷ option "32" "真彩（32位）"
          ∷ option "8" "256色"
          ∷ [])))
    ∷ starting "" (
        plain "cursor" "光标"
          (select (option "" "默认" ∷ option "local" "本地" ∷ option "remote" "远程" ∷ [])))
    ∷ plain "swap-red-blue" "交换红蓝成分" switch
    ∷ plain "dest-host" "目标主机" text_input
    ∷ plain "dest-port" "目标端口" (number (pos 1) (some (pos 65535)))
    ∷ []

-- Whether a value counts as true.
abbrev pub truthy : Option Value → Bool
truthy none = false
truthy (some (text [])) = false
truthy (some (Value.number zero)) = false
truthy (some (flag b)) = b
truthy (some _) = true

-- The switch of the recording sets the property of the page at once.
unfoldable pub set_recording : Bool → Fields → Fields
unfolding assign
set_recording b properties = assign (codes "enable-recording") (flag b) properties

unfoldable pub guacd_items : Fields → List Item
guacd_items properties =
    must (plain "enable-recording" "开启录屏" switch)
    ∷ disabled_if (not (truthy (value_of (codes "enable-recording") properties))) (
        starting "" (
          plain "session-saved-limit" "会话录屏保存时长" (
            select (
              option "" "永久"
              ∷ option "30" "30天"
              ∷ option "60" "60天"
              ∷ option "180" "180天"
              ∷ option "360" "360天"
              ∷ []))))
    ∷ []

unfoldable pub mail_items : List Item
mail_items =
    plain "mail-host" "邮件服务器地址" text_input
    ∷ checked (length_between (pos 1) (pos 65535))
        (plain "mail-port" "邮件服务器端口" (input (codes "number")))
    ∷ checked email (plain "mail-username" "邮箱账号" (input (codes "email")))
    ∷ plain "mail-password" "邮箱密码" (input (codes "password"))
    ∷ []

unfoldable pub log_items : List Item
log_items =
    starting "" (
      plain "login-log-saved-limit" "登录日志保留时长" (
        select (
          option "" "永久"
          ∷ option "30" "30天"
          ∷ option "60" "60天"
          ∷ option "180" "180天"
          ∷ option "360" "360天"
          ∷ [])))
    ∷ starting "" (
        plain "cron-log-saved-limit" "计划任务日志保留时长" (
          select (
            option "" "永久"
            ∷ option "30" "30天"
            ∷ option "60" "60天"
            ∷ option "180" "180天"
            ∷ option "360" "360天"
            ∷ [])))
    ∷ []

unfoldable pub other_items : List Item
other_items = plain "user-default-storage-size" "用户空间默认大小" (number (negsuc 0) none) ∷ []

-- A tab: its key and title, and the items of its form.
pub record Tab : Type 0 where
  pub key : Text
  pub title : Text
  pub items : List Item

unfoldable pub tabs : Fields → List Tab
unfolding rdp_items telnet_items vnc_items guacd_items mail_items log_items other_items
tabs properties =
    record { key = codes "rdp"; title = codes "RDP配置"; items = rdp_items }
    ∷ record { key = codes "telnet"; title = codes "TELNET配置"; items = telnet_items }
    ∷ record { key = codes "vnc"; title = codes "VNC配置"; items = vnc_items }
    ∷ record { key = codes "guacd"; title = codes "录屏配置"; items = guacd_items properties }
    ∷ record { key = codes "mail"; title = codes "邮箱配置"; items = mail_items }
    ∷ record { key = codes "log"; title = codes "日志配置"; items = log_items }
    ∷ record { key = codes "other"; title = codes "其他配置"; items = other_items }
    ∷ record { key = codes "backup"; title = codes "备份与恢复"; items = [] }
    ∷ []

abbrev all_of : List Tab → List Item
all_of [] = []
all_of (tab ∷ tabs) = tab.items ++ all_of tabs

-- The items of all tabs.
abbrev pub all_items : Fields → List Item
all_items properties = all_of (tabs properties)
