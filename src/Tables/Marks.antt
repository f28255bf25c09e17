-- ===== src/Tables/Marks.antt =====
-- The `render` functions of the columns of assets and sessions (web/src/components), each once.
use next_terminal.Base.{
  ℕ, Bool, false, not, Option, none, some, List, [], ◌∷◌, ◌++◌, any, keep, map, get_or, length,
  if◌then◌else◌, ltb, take,
}
use next_terminal.Base.Text.{Text, codes, text_eq}
use next_terminal.Assets.Fields.{text, Fields}
use next_terminal.Assets.Checks.{render_tags}
use next_terminal.Batch.Waiting.{show_tags}
use next_terminal.Settings.Tabs.{truthy}
use next_terminal.Views.Items.{option}
use next_terminal.Views.Columns.{
  Draw, blank, value, words, tag, tags, badge, titled, described, lasting, holds,
}
use next_terminal.Tables.Cells.{field, string_of, said, is_true_flag, name_link}

-- The description "-" of the row is emptied; `linking` says whether the name leads to the details.
unfoldable pub described_name : (linking : Bool) → Draw
unfolding name_link
described_name linking storage i v row =
    described (if linking then name_link "asset-detail" "/asset/" storage i v row else value v)
      (if holds (field "description" row) "-" then some (text []) else field "description" row)

-- `PROTOCOL_COLORS`
unfoldable pub protocol_colors : Text → Option Text
protocol_colors protocol =
    if text_eq protocol (codes "rdp")
    then some (codes "cyan")
    else if text_eq protocol (codes "ssh")
    then some (codes "blue")
    else if text_eq protocol (codes "telnet")
    then some (codes "geekblue")
    else if text_eq protocol (codes "vnc")
    then some (codes "purple")
    else if text_eq protocol (codes "kubernetes")
    then some (codes "volcano")
    else none

unfoldable pub protocol_tag : Draw
unfolding protocol_colors
protocol_tag storage i v row = tag (protocol_colors (string_of v)) (string_of v)

abbrev address : Fields → Text
address row = string_of (field "ip" row) ++ (codes ":" ++ string_of (field "port" row))

unfoldable pub network : Draw
network storage i v row = words (address row)

unfoldable pub titled_protocol : Draw
unfolding protocol_tag
titled_protocol storage i v row = titled (some (text (address row))) (protocol_tag storage i v row)

unfoldable pub session_protocol : Draw
unfolding protocol_tag
session_protocol storage i v row =
    titled (some (text (string_of (field "username" row) ++ (codes "@" ++ address row))))
      (protocol_tag storage i v row)

unfoldable pub tag_list : Draw
unfolding render_tags
tag_list storage i (some (text (c ∷ t))) row = tags (render_tags (c ∷ t))
tag_list storage i v row = blank

unfoldable pub shown_tags : Draw
unfolding show_tags
shown_tags storage i (some (text (c ∷ t))) row = tags (show_tags (c ∷ t))
shown_tags storage i v row = blank

unfoldable pub activity : Draw
activity storage i v row =
    if is_true_flag (field "testing" row)
    then titled (said "测试中") (badge (codes "processing") (codes "测试中"))
    else if truthy v
    then titled (said "运行中") (badge (codes "success") (codes "运行中"))
    else titled (field "activeMessage" row) (badge (codes "error") (codes "不可用"))

unfoldable pub activity_of_choice : Draw
activity_of_choice storage i v row =
    if truthy v
    then titled (said "运行中") (badge (codes "processing") (codes "运行中"))
    else titled (said "不可用") (badge (codes "error") (codes "不可用"))

-- A name of more than twenty code units is cut.
unfoldable pub short_name : Draw
short_name storage i (some (text t)) row =
    titled (some (text t)) (words (if ltb 20 (length t) then take 20 t ++ codes " ..." else t))
short_name storage i v row = titled v (value v)

-- `ended` says whether the session has an end.
unfoldable pub lasting_to : (ended : Bool) → Draw
lasting_to ended storage i v row =
    if truthy (field "connectedTime" row)
    then lasting (field "connectedTime" row)
        (if ended then some (field "disconnectedTime" row) else none)
    else words (codes "-")

-- The tags to choose from; "-" is none of them.
abbrev pub tag_options : List Text → List (Text × Text)
tag_options all_tags =
    map (λ tag. (tag, tag)) (keep (λ tag. not (text_eq tag (codes "-"))) all_tags)

-- The protocols and the states that a search can choose.
abbrev pub protocol_options : List (Text × Text)
protocol_options =
    option "rdp" "RDP"
    ∷ option "ssh" "SSH"
    ∷ option "telnet" "Telnet"
    ∷ option "kubernetes" "Kubernetes"
    ∷ []

abbrev pub active_options : List (Text × Text)
active_options = option "true" "运行中" ∷ option "false" "不可用" ∷ []

abbrev pub at_index : List Bool → ℕ → Bool
at_index flags i = get_or flags i false

abbrev pub includes : List Text → Option Text → Bool
includes keys none = false
includes keys (some key) = any (text_eq key) keys
