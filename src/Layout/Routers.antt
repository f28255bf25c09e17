-- ===== src/Layout/Routers.antt =====
-- The entries of the menu (web/src/layout/router.js).
use next_terminal.Base.{none, List, [], ◌∷◌}
use next_terminal.Base.Text.{Text, codes}
use next_terminal.Layout.Menu.{Page, Router, entry}

abbrev page : (key label : Text) → Page
page key label = record { key = key; label = label }

abbrev pub routers : List Router
routers =
    record { key = codes "dashboard"; label = codes "控制面板"; children = none }
    ∷ entry (codes "resource") (codes "资源管理") (
        page (codes "asset") (codes "资产管理")
        ∷ page (codes "credential") (codes "授权凭证")
        ∷ page (codes "command") (codes "动态指令")
        ∷ page (codes "access-gateway") (codes "接入网关")
        ∷ [])
    ∷ entry (codes "session-audit") (codes "会话审计") (
        page (codes "online-session") (codes "在线会话")
        ∷ page (codes "offline-session") (codes "历史会话")
        ∷ [])
    ∷ entry (codes "log-audit") (codes "日志审计") (page (codes "login-log") (codes "登录日志") ∷ [])
    ∷ entry (codes "ops") (codes "系统运维") (
        page (codes "job") (codes "计划任务")
        ∷ page (codes "storage") (codes "磁盘空间")
        ∷ page (codes "monitoring") (codes "系统监控")
        ∷ [])
    ∷ entry (codes "security") (codes "安全策略") (
        page (codes "access-security") (codes "访问安全")
        ∷ page (codes "login-policy") (codes "登录策略")
        ∷ [])
    ∷ entry (codes "identity") (codes "用户管理") (
        page (codes "user") (codes "用户管理")
        ∷ page (codes "role") (codes "角色管理")
        ∷ page (codes "user-group") (codes "用户组管理")
        ∷ [])
    ∷ entry (codes "authorised") (codes "授权策略") (page (codes "strategy") (codes "授权策略") ∷ [])
    ∷ record { key = codes "setting"; label = codes "系统设置"; children = none }
    ∷ record { key = codes "info"; label = codes "个人中心"; children = none }
    ∷ []
