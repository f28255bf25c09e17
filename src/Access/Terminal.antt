-- ===== src/Access/Terminal.antt =====
-- The terminal page (web/src/components/access/Term.js) and the monitor of one
-- (web/src/components/session/TermMonitor.js), driven by the events of the page and of the socket.
-- The screen of xterm.js is the list of the calls made on it.
use next_terminal.Base.{
  ℕ, Bool, true, false, ◌&&◌, Option, none, some, List, [], ◌∷◌, ◌++◌, ◌==◌, if◌then◌else◌,
}
use next_terminal.Base.Text.{Text, codes, decimal, text_eq}
use next_terminal.Access.Message.{closed, connected, data', resize, ping, to_string, parse}

pub data Output : Type 0 where
  clear : Output
  write writeln : Text → Output

pub data Notice : Type 0 where
  -- `message.warn` and `message.error`
  warn : Text → Notice
  failure : Option Text → Notice
  -- the requests `/sessions/:id/connect`, and for the commands, of a worker or not
  connect : Text → Notice
  load_commands : Bool → Notice

-- A session as the server describes it; its rights are "0" or "1", or absent.
pub record Session : Type 0 where
  pub id : Text
  pub copy : Option Text
  pub paste : Option Text

pub record Command : Type 0 where
  pub id : Text
  pub content : Text

-- `socket` says whether there is a socket, and `open'` whether its state is OPEN, which it is no more as
-- soon as it is closed, here or there. `sent` is what the socket has taken.
pub record Terminal : Type 0 where
  pub session : Option Session
  pub socket : Bool
  pub open' : Bool
  pub pinging : Bool
  pub outputs : List Output
  pub sent : List Text
  pub notices : List Notice
  pub commands : List Command
  pub width : ℕ
  pub height : ℕ

abbrev pub print : List Output → Terminal → Terminal
print os t = record t { outputs = t.outputs ++ os }

abbrev pub taken : ℕ → Text → Terminal → Terminal
taken type content t = record t { sent = t.sent ++ to_string type content ∷ [] }

-- `webSocket.send`: a socket that closes or is closed drops the text, and one that connects throws.
abbrev pub transmit : ℕ → Text → Terminal → Terminal
transmit type content t = if t.open' then taken type content t else t

abbrev pub note : List Notice → Terminal → Terminal
note ns t = record t { notices = t.notices ++ ns }

-- A text in bold red, as `writeErrorMessage` and the notice of a closed session write it.
abbrev pub red : Text → Text
red said = (0x1b ∷ codes "[1;3;31m") ++ (said ++ (0x1b ∷ codes "[0m "))

abbrev pub denied : Option Text → Bool
denied none = false
denied (some right) = text_eq right (codes "0")

-- `init`: the id of the asset, and what creating a session gives, a session or a message.
unfoldable pub init : Option Text → Option Session → Text → Terminal → Terminal
init none result err_msg t = print (writeln (red (codes "参数缺失，请关闭此页面后重新打开。")) ∷ []) t
init (some asset_id) none err_msg t = print (writeln (red (codes "创建会话失败，" ++ err_msg)) ∷ []) t
init (some asset_id) (some session) err_msg t =
    record (print (writeln (codes "trying to connect to the server ...") ∷ []) t) {
      session = some session;
      socket = true;
    }

unfoldable pub on_open : Terminal → Terminal
on_open t = record t { pinging = true; open' = true }

unfoldable pub on_close : Terminal → Terminal
on_close t = record (print (writeln (codes "connection is closed.") ∷ []) t) {
  pinging = false;
  open' = false;
}

unfoldable pub on_error : Text → Terminal → Terminal
on_error said t = print (writeln (red (codes "websocket error " ++ said)) ∷ []) t

-- The timer of the pings, while it runs.
unfoldable pub on_tick : Terminal → Terminal
on_tick t = if t.pinging then transmit ping [] t else t

unfoldable pub on_data : Text → Terminal → Terminal
on_data typed t = if t.socket then transmit data' typed t else t

unfoldable pub session_id : Terminal → Text
session_id t = elim (t.session) [ none ↦ [] | some session ↦ session.id ]

abbrev pub type_is : Option ℕ → ℕ → Bool
type_is none n = false
type_is (some k) n = k == n

-- `webSocket.onmessage` of the terminal. `webSocket.close()` ends the state OPEN at once; the timer runs
-- on until `on_close`.
unfoldable pub on_message : Bool → Text → Terminal → Terminal
unfolding session_id
on_message is_worker raw t =
    let msg = parse raw in
    if type_is msg.type connected
    then note (connect (session_id t) ∷ load_commands is_worker ∷ []) (print (clear ∷ []) t)
    else if type_is msg.type data'
    then print (write msg.content ∷ []) t
    else if type_is msg.type closed
    then record (print (writeln (red msg.content) ∷ []) t) { open' = false }
    else t

-- `updateSessionStatus`, once the server has answered
unfoldable pub session_status_updated : Bool → Option Text → Terminal → Terminal
session_status_updated done said t = if done then t else note (failure said ∷ []) t

unfoldable pub set_commands : List Command → Terminal → Terminal
set_commands items t = record t { commands = items }

-- `document.body.oncopy` and `onpaste`: whether the event goes on.
unfoldable pub on_copy : Terminal → Terminal × Bool
on_copy t = elim (t.session) [
  | none ↦ (t, true)
  | some session ↦
      if denied session.copy then (note (warn (codes "禁止复制") ∷ []) t, false) else (t, true)
]

unfoldable pub on_paste : Terminal → Terminal × Bool
on_paste t = elim (t.session) [
  | none ↦ (t, true)
  | some session ↦
      if denied session.paste then (note (warn (codes "禁止粘贴") ∷ []) t, false) else (t, true)
]

-- `window.btoa(JSON.stringify({cols, rows}))`; the coding in base 64 is a parameter.
abbrev pub size_json : ℕ → ℕ → Text
size_json cols rows =
    codes "{\"cols\":" ++ (decimal cols ++ (codes ",\"rows\":" ++ (decimal rows ++ codes "}")))

-- A resized window, and the effect that follows where the size has changed.
unfoldable pub on_window_resize : (Text → Text) → (width height cols rows : ℕ) → Terminal → Terminal
on_window_resize btoa width height cols rows t =
    let t' = record t { width = width; height = height } in
    if (width == t.width) && (height == t.height)
    then t
    else if t.socket && t.open'
    then transmit resize (btoa (size_json cols rows)) t'
    else t'

unfoldable pub write_command : Text → Terminal → Terminal
write_command command t = if t.socket then transmit data' command t else t

-- The loop of `handleCmdMenuClick`.
unfoldable pub send_commands : Text → List Command → Terminal → Terminal
unfolding write_command
send_commands key [] t = t
send_commands key (command ∷ commands) t =
    send_commands key commands
      (if text_eq command.id key then write_command command.content t else t)

unfoldable pub handle_cmd_menu_click : Text → Terminal → Terminal
handle_cmd_menu_click key t = send_commands key t.commands t

-- The monitor: its screen, whether it waits for the first data, and whether it has closed the socket.
pub record Monitor : Type 0 where
  pub screen : List Output
  pub waiting : Bool
  pub closing : Bool

unfoldable pub monitor_init : Monitor
monitor_init = record {
  screen = writeln (codes "等待用户输入中...") ∷ [];
  waiting = true;
  closing = false;
}

unfoldable pub monitor_on_message : Text → Monitor → Monitor
monitor_on_message raw m =
    let msg = parse raw in
    if type_is msg.type connected
    then record m { screen = m.screen ++ clear ∷ [] }
    else if type_is msg.type data'
    then record m {
      screen = m.screen ++ ((if m.waiting then clear ∷ [] else []) ++ write msg.content ∷ []);
      waiting = false;
    }
    else if type_is msg.type closed
    then record m { screen = m.screen ++ writeln (red msg.content) ∷ []; closing = true }
    else m
