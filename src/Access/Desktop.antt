-- ===== src/Access/Desktop.antt =====
-- The desktop page (web/src/components/access/Guacd.js). The client of guacamole-common-js is the
-- list of the calls made on it. A handler sees the session of the rendering that made it.
use next_terminal.Base.{
  ℕ, Bool, true, false, not, ◌&&◌, ◌||◌, Option, none, some, List, [], ◌∷◌, ◌++◌, map, min, ◌==◌,
  if◌then◌else◌,
}
use next_terminal.Base.Text.{Text, codes, text_eq, has_text}

pub data Call : Type 0 where
  key_down key_up : Text → Call
  send_size : (width height : ℕ) → Call
  -- a text on a stream of that type
  send_text : (type content : Text) → Call
  -- a scale as a fraction
  scale : (num den : ℕ) → Call
  focus : Call

pub data Notice : Type 0 where
  destroy : Notice
  loading success info warn : Text → Notice
  -- the dialogue with the choices to connect again or to close the page
  dialogue : Text → Notice
  close_dialogues : Notice
  -- the request `/sessions/:id/connect`
  connect : Text → Notice

-- The session of a rendering: before one is created it has no fields.
pub record Session : Type 0 where
  pub id : Option Text
  pub copy : Option Text
  pub paste : Option Text

abbrev pub no_session : Session
no_session = record { id = none; copy = none; paste = none }

-- `client` says whether there is one, and `seen` is the session that its clipboard handler sees.
pub record Guacd : Type 0 where
  pub fixed_size : Bool
  pub box : ℕ × ℕ
  pub client : Bool
  pub session : Session
  pub seen : Session
  pub clipboard_text : Text
  pub system_clipboard : Option Text
  pub full_screened : Bool
  pub clipboard_visible : Bool
  pub file_system_visible : Bool
  pub calls : List Call
  pub notices : List Notice

abbrev pub call : List Call → Guacd → Guacd
call cs g = record g { calls = g.calls ++ cs }

abbrev pub note : List Notice → Guacd → Guacd
note ns g = record g { notices = g.notices ++ ns }

abbrev page : Bool → ℕ → ℕ → Guacd
page fixed width height = record {
  fixed_size = fixed;
  box = (width, height);
  client = false;
  session = no_session;
  seen = no_session;
  clipboard_text = [];
  system_clipboard = none;
  full_screened = false;
  clipboard_visible = false;
  file_system_visible = false;
  calls = [];
  notices = [];
}

-- The page as it is first rendered: of a fixed size where the query names both sides.
unfoldable pub mount : Option ℕ → Option ℕ → (inner_width inner_height : ℕ) → Guacd
mount (some width) (some height) inner_width inner_height = page true width height
mount _ _ inner_width inner_height = page false inner_width inner_height

-- `createSession`: the handlers of the client are made in the rendering that called it.
unfoldable pub create_session : Session → Guacd → Guacd
create_session created g = elim (created.id) [
  | none ↦ g
  | some id ↦
      if has_text id then record g { session = created; seen = g.session; client = true } else g
]

unfoldable pub on_client_state_change : ℕ → Text → Guacd → Guacd
on_client_state_change state session_id g =
    if state == 0
    then note (destroy ∷ loading (codes "正在初始化中...") ∷ []) g
    else if state == 1
    then note (destroy ∷ loading (codes "正在努力连接中...") ∷ []) g
    else if state == 2
    then note (destroy ∷ loading (codes "正在等待服务器响应...") ∷ []) g
    else if state == 3
    then note (close_dialogues ∷ destroy ∷ success (codes "连接成功") ∷ connect session_id ∷ []) g
    else if state == 5
    then note (info (codes "连接已关闭") ∷ []) g
    else g

-- The texts of `onError` for the codes that it names.
abbrev error_texts : List (ℕ × Text)
error_texts =
    (256, codes "未支持的访问")
    ∷ (512, codes "远程服务异常，请检查目标设备能否正常访问。")
    ∷ (513, codes "服务器忙碌")
    ∷ (514, codes "服务器连接超时")
    ∷ (515, codes "远程服务异常")
    ∷ (516, codes "资源未找到")
    ∷ (517, codes "资源冲突")
    ∷ (518, codes "资源已关闭")
    ∷ (519, codes "远程服务未找到")
    ∷ (520, codes "远程服务不可用")
    ∷ (521, codes "会话冲突")
    ∷ (522, codes "会话连接超时")
    ∷ (523, codes "会话已关闭")
    ∷ (768, codes "网络不可达")
    ∷ (769, codes "服务器密码验证失败")
    ∷ (771, codes "客户端被禁止")
    ∷ (776, codes "客户端连接超时")
    ∷ (781, codes "客户端异常")
    ∷ (783, codes "错误的请求类型")
    ∷ (800, codes "会话不存在")
    ∷ (801, codes "创建隧道失败，请检查Guacd服务是否正常。")
    ∷ (802, codes "管理员强制关闭了此会话")
    ∷ []

text_of_code : ℕ → List (ℕ × Text) → Option Text
text_of_code code [] = none
text_of_code code ((c, text) ∷ rest) = if c == code then some text else text_of_code code rest

unfoldable pub show_message : Text → Guacd → Guacd
show_message msg g = note (destroy ∷ dialogue msg ∷ []) g

-- The decoding of base 64 is a parameter; an absent message counts as an empty one.
unfoldable pub on_error : (Text → Text) → ℕ → Text → Guacd → Guacd
unfolding show_message text_of_code
on_error decode code message g = elim (text_of_code code error_texts) [
  | some text ↦ show_message text g
  | none ↦
      if has_text message then show_message (decode message) g else show_message (codes "未知错误。") g
]

unfoldable pub on_window_resize : (width height display_width display_height : ℕ) → Guacd → Guacd
on_window_resize width height display_width display_height g =
    if g.client && not g.fixed_size
    then call (scale (min height width) display_height ∷ send_size width height ∷ [])
        (record g { box = (width, height) })
    else g

unfoldable pub send_combination_key : List Text → Guacd → Guacd
send_combination_key keys g =
    if g.client
    then note (success (codes "发送组合键成功") ∷ []) (call (map key_down keys ++ map key_up keys) g)
    else g

abbrev pub denied : Option Text → Bool
denied none = false
denied (some right) = text_eq right (codes "0")

-- A text that the remote machine has put on its clipboard, received to its end.
unfoldable pub handle_clipboard_received : Session → Bool → Text → Guacd → Guacd
handle_clipboard_received session has_clipboard data' g =
    if denied session.copy then g else record g {
      clipboard_text = data';
      system_clipboard = if has_clipboard then some data' else g.system_clipboard;
    }

-- `client.onclipboard`, which is the handler of the rendering that made the client.
unfoldable pub on_clipboard : Bool → Text → Guacd → Guacd
unfolding handle_clipboard_received
on_clipboard has_clipboard data' g = handle_clipboard_received g.seen has_clipboard data' g

unfoldable pub send_clipboard : Text → Text → Guacd → Guacd
send_clipboard type data' g =
    if not g.client
    then g
    else if denied g.session.paste
    then note (warn (codes "禁止粘贴") ∷ []) g
    else call (send_text type data' ∷ []) g

-- `focus` of the state, where there is a sink.
abbrev focused : Guacd → Guacd
focused g = if g.client then call (focus ∷ []) g else g

unfoldable pub full_screen : Guacd → Guacd
full_screen g = focused (record g { full_screened = not g.full_screened })

-- The dialogue of the clipboard.
unfoldable pub clipboard_ok : Text → Guacd → Guacd
clipboard_ok text g = focused (record (send_clipboard (codes "text/plain") text g) {
  clipboard_text = text;
  clipboard_visible = false;
})

unfoldable pub clipboard_cancel : Guacd → Guacd
clipboard_cancel g = focused (record g { clipboard_visible = false })

abbrev granted : Option Text → Bool
granted none = false
granted (some right) = text_eq right (codes "1")

-- The button of the clipboard is shown.
unfoldable pub shows_clipboard : Guacd → Bool
shows_clipboard g = granted g.session.copy || granted g.session.paste
