-- ===== src/Batch/Terminals.antt =====
-- The terminals of a command for several assets (web/src/components/devops/ExecuteCommand.js).
use next_terminal.Base.{
  ℕ, Bool, true, false, not, Option, none, some, List, [], ◌∷◌, ◌++◌, map, if◌then◌else◌, ◌==◌,
  keep,
}
use next_terminal.Base.Text.{Text, codes, text_eq, has_text}
use next_terminal.Access.Message.{closed, connected, data', resize, to_string, parse}
use next_terminal.Access.Terminal.{Output, clear, write, writeln, red, size_json}
use next_terminal.Batch.Waiting.{Asset}

-- A session of an asset: its socket, what it has sent, and the calls on its terminal. `connects`
-- says whether the server has been told of the connection.
pub record Session : Type 0 where
  pub id : Text
  pub open' : Bool
  pub sent : List Text
  pub outputs : List Output
  pub disposed : Bool
  pub connects : Bool

pub record Page : Type 0 where
  pub sessions : List Session
  pub assets : List Asset
  pub input_value : Text

-- `command + String.fromCharCode(13)` as a message of data
abbrev pub line : Text → Text
line command = to_string data' (command ++ 13 ∷ [])

-- The end of `initTerm`, for a session that the server has created: a socket that is not yet open.
unfoldable pub init_term : Text → Page → Page
init_term asset_id page = record page {
  sessions =
      page.sessions
      ++ record {
        id = asset_id;
        open' = false;
        sent = [];
        outputs = writeln (codes "Trying to connect to the server ...") ∷ [];
        disposed = false;
        connects = false;
      }
        ∷ [];
}

unfoldable pub on_data : Text → Session → Session
on_data data'' session = record session { sent = session.sent ++ to_string data' data'' ∷ [] }

unfoldable pub on_error : Session → Session
on_error session = record session {
  outputs = session.outputs ++ writeln (codes "Failed to connect to server.") ∷ [];
}

unfoldable pub on_close : Session → Session
on_close session = record session {
  open' = false;
  outputs = session.outputs ++ writeln (codes "Connection is closed.") ∷ [];
}

-- The lines of the commands that have text.
unfoldable pub lines : List Text → List Text
lines [] = []
lines (command ∷ commands) =
    let rest = lines commands in if has_text command then line command ∷ rest else rest

abbrev type_is : Option ℕ → ℕ → Bool
type_is none n = false
type_is (some k) n = k == n

unfoldable pub on_message : (commands : List Text) → Text → Session → Session
unfolding lines
on_message commands raw session =
    let msg = parse raw in
    if type_is msg.type connected
    then record session {
      outputs = session.outputs ++ clear ∷ [];
      connects = true;
      sent = session.sent ++ lines commands;
    }
    else if type_is msg.type data'
    then record session { outputs = session.outputs ++ write msg.content ∷ [] }
    else if type_is msg.type closed
    then record session {
      outputs = session.outputs ++ writeln (red msg.content) ∷ [];
      open' = false;
    }
    else session

abbrev pub given : Text → Session → Session
given value session =
    if session.open' then record session { sent = session.sent ++ line value ∷ [] } else session

unfoldable pub handle_execute_command : Text → Page → Page
handle_execute_command value page = record page {
  sessions = map (given value) page.sessions;
  input_value = [];
}

-- The size of every terminal is the one that it has been fitted to.
unfoldable pub handle_window_resize : (Session → ℕ × ℕ) → (btoa : Text → Text) → Page → Page
handle_window_resize size btoa page = record page {
  sessions =
      map
        (λ session.
          if session.open'
          then record session {
            sent =
                session.sent
                ++ to_string resize (btoa (size_json (size session).0 (size session).1)) ∷ [];
          }
          else session)
        page.sessions;
}

unfoldable pub handle_input_change : Text → Page → Page
handle_input_change value page = record page { input_value = value }

-- The first session of an asset is closed; `none` where there is none, on which the code throws.
unfoldable pub close_first : Text → List Session → Option (List Session)
close_first id [] = none
close_first id (session ∷ sessions) =
    let rest = close_first id sessions in
    if text_eq session.id id
    then some (record session { open' = false; disposed = true } ∷ sessions)
    else elim rest [ none ↦ none | some closed' ↦ some (session ∷ closed') ]

abbrev pub without_asset : Text → Option (List Session) → Page → Option Page
without_asset id none page = none
without_asset id (some sessions) page = some (record page {
  sessions = sessions;
  assets = keep (λ item. not (text_eq item.id id)) page.assets;
})

-- A closing socket is not open from then on.
unfoldable pub handle_remove_term : Text → Page → Option Page
unfolding close_first
handle_remove_term id page = without_asset id (close_first id page.sessions) page
