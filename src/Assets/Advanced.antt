-- ===== src/Assets/Advanced.antt =====
-- The second tab of the form of an asset (web/src/components/asset/AssetModal.js), for each protocol,
-- and the handlers of its switches.
use next_terminal.Base.{Bool, some, List, [], ◌∷◌, ◌++◌, if◌then◌else◌}
use next_terminal.Base.Text.{Text, codes}
use next_terminal.Settings.Properties.{pos}
use next_terminal.Assets.Form.{AssetForm, is}
use next_terminal.Assets.Fields.{flag, assign}
use next_terminal.Assets.Basic.{Choices}
use next_terminal.Views.Items.{
  Item, plain, must, starting, option, hidden, number, select, switch, text_input, password_input,
}

-- A panel that can be folded, by its key.
pub record Panel : Type 0 where
  pub key : Text
  pub items : List Item

abbrev panel : Text → List Item → Panel
panel key items = record { key = key; items = items }

abbrev pub items_of : List Panel → List Item
items_of [] = []
items_of (panel ∷ panels) = panel.items ++ items_of panels

unfoldable pub drive_items : Choices → Bool → List Item
drive_items choices enable_drive =
    plain "enable-drive" "启用" switch
    ∷ (if enable_drive then plain "drive-path" "映射空间" (select choices.storages) ∷ [] else [])

unfoldable pub rdp_panels : Choices → Bool → List Panel
unfolding drive_items
rdp_panels choices enable_drive =
    panel (codes "显示设置") (
      starting "" (
        plain "color-depth" "色彩深度" (
          select (
            option "" "默认"
            ∷ option "16" "低色（16位）"
            ∷ option "24" "真彩（24位）"
            ∷ option "32" "真彩（32位）"
            ∷ option "8" "256色"
            ∷ [])))
      ∷ must (plain "force-lossless" "无损压缩" switch)
      ∷ [])
    ∷ panel (codes "认证") (plain "domain" "域" text_input ∷ [])
    ∷ panel (codes "PDU") (
        plain "preconnection-id" "预连接ID" text_input
        ∷ plain "preconnection-blob" "预连接字符" text_input
        ∷ [])
    ∷ panel (codes "remote-app") (
        plain "remote-app" "程序" text_input
        ∷ plain "remote-app-dir" "工作目录" text_input
        ∷ plain "remote-app-args" "参数" text_input
        ∷ [])
    ∷ panel (codes "storage") (drive_items choices enable_drive)
    ∷ []

unfoldable pub ssh_panels : Bool → List Panel
ssh_panels socks_proxy_enable =
    panel (codes "socks") (
      plain "ssh-mode" "" hidden
      ∷ plain "socks-proxy-enable" "使用Socks代理" switch
      ∷ (if socks_proxy_enable
          then must (plain "socks-proxy-host" "代理地址" text_input)
            ∷ must (plain "socks-proxy-port" "代理端口" (number (pos 1) (some (pos 65535))))
            ∷ plain "socks-proxy-username" "代理账号" text_input
            ∷ plain "socks-proxy-password" "代理密码" password_input
            ∷ []
          else []))
    ∷ []

unfoldable pub vnc_panels : List Panel
vnc_panels =
    panel (codes "显示设置") (
      starting "" (
        plain "color-depth" "色彩深度" (
          select (
            option "" "默认"
            ∷ option "16" "低色（16位）"
            ∷ option "24" "真彩（24位）"
            ∷ option "32" "真彩（32位）"
            ∷ option "8" "256色"
            ∷ [])))
      ∷ starting "" (
          plain "cursor" "光标"
            (select (option "" "默认" ∷ option "local" "本地" ∷ option "remote" "远程" ∷ [])))
      ∷ [])
    ∷ panel (codes "VNC中继") (
        plain "dest-host" "目标主机" text_input
        ∷ plain "dest-port" "目标端口" (number (pos 1) (some (pos 65535)))
        ∷ [])
    ∷ []

unfoldable pub telnet_panels : List Panel
telnet_panels =
    panel (codes "认证") (
      plain "username-regex" "用户名正则表达式" text_input
      ∷ plain "password-regex" "密码正则表达式" text_input
      ∷ plain "login-success-regex" "登录成功正则表达式" text_input
      ∷ plain "login-failure-regex" "登录失败正则表达式" text_input
      ∷ [])
    ∷ panel (codes "显示设置") (
        starting "" (
          plain "color-scheme" "配色方案" (
            select (
              option "" "默认"
              ∷ option "gray-black" "黑底灰字"
              ∷ option "green-black" "黑底绿字"
              ∷ option "white-black" "黑底白字"
              ∷ option "black-white" "白底黑字"
              ∷ [])))
        ∷ plain "font-name" "字体名称" text_input
        ∷ plain "font-size" "字体大小" (number (pos 8) (some (pos 96)))
        ∷ [])
    ∷ panel (codes "控制终端行为") (
        starting "" (
          plain "backspace" "退格键映射"
            (select (option "" "默认" ∷ option "127" "删除键(Ctrl-?)" ∷ option "8" "退格键(Ctrl-H)" ∷ [])))
        ∷ starting "" (
            plain "terminal-type" "终端类型" (
              select (
                option "" "默认"
                ∷ option "ansi" "ansi"
                ∷ option "linux" "linux"
                ∷ option "vt100" "vt100"
                ∷ option "vt220" "vt220"
                ∷ option "xterm" "xterm"
                ∷ option "xterm-256color" "xterm-256color"
                ∷ [])))
        ∷ [])
    ∷ []

unfoldable pub kubernetes_panels : Bool → List Panel
kubernetes_panels use_ssl =
    panel (codes "认证") (
      plain "use-ssl" "使用SSL" switch
      ∷ ((if use_ssl
            then plain "client-cert" "client-cert" text_input
              ∷ plain "client-key" "client-key" text_input
              ∷ plain "ca-cert" "ca-cert" text_input
              ∷ []
            else [])
          ++ plain "ignore-cert" "忽略证书" switch ∷ []))
    ∷ panel (codes "显示设置") (
        starting "" (
          plain "color-scheme" "配色方案" (
            select (
              option "" "默认"
              ∷ option "gray-black" "黑底灰字"
              ∷ option "green-black" "黑底绿字"
              ∷ option "white-black" "黑底白字"
              ∷ option "black-white" "白底黑字"
              ∷ [])))
        ∷ plain "font-name" "字体名称" text_input
        ∷ plain "font-size" "字体大小" (number (pos 8) (some (pos 96)))
        ∷ [])
    ∷ panel (codes "控制终端行为") (
        starting "" (
          plain "backspace" "退格键映射"
            (select (option "" "默认" ∷ option "127" "删除键(Ctrl-?)" ∷ option "8" "退格键(Ctrl-H)" ∷ [])))
        ∷ starting "" (
            plain "terminal-type" "终端类型" (
              select (
                option "" "默认"
                ∷ option "ansi" "ansi"
                ∷ option "linux" "linux"
                ∷ option "vt100" "vt100"
                ∷ option "vt220" "vt220"
                ∷ option "xterm" "xterm"
                ∷ option "xterm-256color" "xterm-256color"
                ∷ [])))
        ∷ [])
    ∷ []

-- `advancedView`
unfoldable pub advanced_panels : Choices → AssetForm → List Panel
unfolding rdp_panels ssh_panels vnc_panels telnet_panels kubernetes_panels
advanced_panels choices form =
    if is form.protocol (codes "rdp")
    then rdp_panels choices form.enable_drive
    else if is form.protocol (codes "ssh")
    then ssh_panels form.socks_proxy_enable
    else if is form.protocol (codes "vnc")
    then vnc_panels
    else if is form.protocol (codes "telnet")
    then telnet_panels
    else if is form.protocol (codes "kubernetes")
    then kubernetes_panels form.use_ssl
    else []

-- The handlers of the switches, behind the form's own change of the field.
unfoldable pub change_enable_drive : Bool → AssetForm → AssetForm
unfolding assign
change_enable_drive b form = record form {
  enable_drive = b;
  fields = assign (codes "enable-drive") (flag b) form.fields;
}

unfoldable pub change_socks_proxy_enable : Bool → AssetForm → AssetForm
unfolding assign
change_socks_proxy_enable b form = record form {
  socks_proxy_enable = b;
  fields = assign (codes "socks-proxy-enable") (flag b) form.fields;
}

unfoldable pub change_use_ssl : Bool → AssetForm → AssetForm
unfolding assign
change_use_ssl b form = record form {
  use_ssl = b;
  fields = assign (codes "use-ssl") (flag b) form.fields;
}
