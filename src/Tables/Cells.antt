-- ===== src/Tables/Cells.antt =====
-- The `render` functions of the columns (web/src/components), each once: several pages repeat one. A
-- negative number of a row stands as its text.
use next_terminal.Base.{
  Bool, true, false, not, ◌||◌, Option, none, some, List, [], ◌∷◌, ◌++◌, if◌then◌else◌, ◌==◌,
}
use next_terminal.Base.Text.{Text, codes, has_text, split, join, decimal}
use next_terminal.Layout.Permission.{has_menu}
use next_terminal.Tables.Paging.{comma}
use next_terminal.Assets.Fields.{Value, text, number, flag, texts, Fields, value_of}
use next_terminal.Settings.Tabs.{truthy}
use next_terminal.Views.Columns.{
  Cell, Draw, value, size, words, relative, tag, badge, link, titled, holds,
}
use Prim.Native.String.{String}

abbrev pub field : String → Fields → Option Value
field key row = value_of (codes key) row

-- A value in a template.
abbrev pub string_of : Option Value → Text
string_of none = codes "undefined"
string_of (some (text t)) = t
string_of (some (number n)) = decimal n
string_of (some (flag b)) = if b then codes "true" else codes "false"
string_of (some (texts ts)) = join comma ts

-- `isEmpty`
abbrev is_empty : Option Value → Bool
is_empty none = true
is_empty (some (text t)) = not (has_text t)
is_empty (some _) = false

-- `value === true`
abbrev pub is_true_flag : Option Value → Bool
is_true_flag (some (flag b)) = b
is_true_flag _ = false

abbrev pub said : String → Option Value
said t = some (text (codes t))

abbrev colour_tag : (colour label : String) → Cell
colour_tag colour label = tag (some (codes colour)) (codes label)

unfoldable pub key_or_password : Draw
key_or_password storage i v row =
    if holds v "private-key" then colour_tag "green" "密钥" else colour_tag "red" "密码"

unfoldable pub connection : Draw
connection storage i v row =
    if truthy v
    then titled (said "连接成功") (badge (codes "success") (codes "已连接"))
    else titled (field "message" row) (badge (codes "default") (codes "已断开"))

-- The page of the record that a field of the row names.
unfoldable pub linked : (path key : String) → Draw
linked path key storage i v row = link (codes path ++ string_of (field key row)) v

unfoldable pub name_link : (menu path : String) → Draw
unfolding linked
name_link menu path storage i v row =
    if has_menu storage (codes menu ∷ []) then linked path "id" storage i v row else value v

unfoldable pub allowed_words : Draw
allowed_words storage i v row = words (if holds v "allow" then codes "允许" else codes "拒绝")

unfoldable pub allowed_tag : Draw
allowed_tag storage i v row =
    if holds v "allow" then colour_tag "green" "允许" else colour_tag "red" "禁止"

unfoldable pub login_state : Draw
login_state storage i v row =
    if holds v "0" then colour_tag "error" "失败" else colour_tag "success" "成功"

abbrev first_word : List Text → Text
first_word [] = []
first_word (t ∷ ts) = t

unfoldable pub browser : Draw
browser storage i v row =
    if is_empty v
    then words (codes "未知")
    else titled v (words (first_word (split b' ' (string_of v))))

-- What the server sends for a time that has not come.
abbrev no_time : String
no_time = "0001-01-01 00:00:00"

unfoldable pub logout_time : Draw
logout_time storage i v row = if is_empty v || holds v no_time then words [] else value v

unfoldable pub yes_no : Draw
yes_no storage i v row = if truthy v then colour_tag "green" "是" else colour_tag "red" "否"

abbrev below_zero : Option Value → Bool
below_zero (some (text (c ∷ t))) = c == b'-'
below_zero _ = false

unfoldable pub size_limit : Draw
size_limit storage i v row = if below_zero v then words (codes "无限制") else size v

unfoldable pub job_kind : Draw
job_kind storage i v row =
    if holds v "check-asset-status-job"
    then colour_tag "green" "资产状态检测"
    else if holds v "shell-job"
    then colour_tag "volcano" "Shell脚本"
    else words []

unfoldable pub render_status : Draw
render_status storage i (some (flag true)) row = colour_tag "green" "开启"
render_status storage i v row = colour_tag "red" "关闭"

unfoldable pub ago : Draw
ago storage i v row = titled v (relative v)

unfoldable pub ago_or_never : Draw
unfolding ago
ago_or_never storage i v row = if holds v no_time then words (codes "-") else ago storage i v row
