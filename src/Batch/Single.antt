-- ===== src/Batch/Single.antt =====
-- The older terminal of a batch command (web/src/components/access/BatchCommandTerm.js): it sends its
-- command with the first message of its socket.
use next_terminal.Base.{
  ℕ, suc, Bool, true, false, ◌&&◌, Option, none, some, List, [], ◌∷◌, ◌++◌, ◌==◌, if◌then◌else◌,
}
use next_terminal.Base.Text.{Text, codes, has_text}
use next_terminal.Access.Message.{closed, connected, data', resize, to_string, parse}
use next_terminal.Access.Terminal.{Output, clear, write, writeln, red}

-- A session was asked for, for an asset; the socket of an asset was given to the page; the server was told
-- of the connection; an error was shown.
pub data Notice : Type 0 where
  create append connect : Text → Notice
  failure : Option Text → Notice

-- `socket` says whether the state holds the socket, `open'` whether it is open, `listens` whether the
-- window's resize is listened to; `rejected` says that mounting threw.
pub record Single : Type 0 where
  pub asset_id : Text
  pub command : Text
  pub session_id : Text
  pub socket : Bool
  pub open' : Bool
  pub listens : Bool
  pub executed_command : Bool
  pub rejected : Bool
  pub outputs : List Output
  pub sent : List Text
  pub notices : List Notice
  pub fits : ℕ

unfoldable pub fresh_single : (asset_id command : Text) → Single
fresh_single asset_id command = record {
  asset_id = asset_id;
  command = command;
  session_id = [];
  socket = false;
  open' = false;
  listens = false;
  executed_command = false;
  rejected = false;
  outputs = [];
  sent = [];
  notices = [];
  fits = 0;
}

abbrev print : Output → Single → Single
print o t = record t { outputs = t.outputs ++ o ∷ [] }

abbrev notify : Notice → Single → Single
notify n t = record t { notices = t.notices ++ n ∷ [] }

abbrev transmit : Text → Single → Single
transmit m t = record t { sent = t.sent ++ m ∷ [] }

-- `createSession`: the id of the session, or none for another code than 1, on which a method is called
-- that the class does not have.
unfoldable pub did_mount : Option Text → Single → Single
did_mount none t = record (notify (create t.asset_id) t) { rejected = true }
did_mount (some id) t =
    if has_text id
    then record (notify (append t.asset_id) (
        print (writeln (codes "Trying to connect to the server ..."))
          (notify (create t.asset_id) t))) { session_id = id; socket = true; listens = true }
    else notify (create t.asset_id) t

-- What is typed goes to the socket, which throws before it is open.
unfoldable pub single_on_data : Text → Single → Single
single_on_data typed t = if t.socket && t.open' then transmit (to_string data' typed) t else t

-- `size` is the terminal's size as JSON in base 64.
unfoldable pub single_on_window_resize : (size : Text) → Single → Single
single_on_window_resize size t =
    if t.socket && t.open'
    then record (transmit (to_string resize size) t) { fits = suc t.fits }
    else t

unfoldable pub single_on_open : (size : Text) → Single → Single
unfolding single_on_window_resize
single_on_open size t = single_on_window_resize size (record t { open' = true })

unfoldable pub single_on_error : Single → Single
single_on_error t = print (writeln (codes "Failed to connect to server.")) t

unfoldable pub single_on_close : Single → Single
single_on_close t = record (print (writeln (codes "Connection is closed.")) t) { open' = false }

abbrev pub type_is : Option ℕ → ℕ → Bool
type_is none n = false
type_is (some k) n = k == n

abbrev pub said_by : Option ℕ → Text → Single → Single
said_by type content t =
    if type_is type connected
    then notify (connect t.session_id) (print clear t)
    else if type_is type data'
    then print (write content) t
    else if type_is type closed
    then record (print (writeln (red content)) t) { open' = false }
    else t

-- The command goes out with the first message, if the socket is open then, and never later.
unfoldable pub execute_once : Single → Single
execute_once t =
    if t.executed_command
    then t
    else record (if has_text t.command && (t.socket && t.open')
        then transmit (to_string data' (t.command ++ 13 ∷ [])) t
        else t) { executed_command = true }

unfoldable pub single_on_message : Text → Single → Single
unfolding execute_once
single_on_message raw t = let msg = parse raw in execute_once (said_by msg.type msg.content t)

-- `updateSessionStatus`, once the server has answered
unfoldable pub single_status_updated : Bool → Option Text → Single → Single
single_status_updated done said t = if done then t else notify (failure said) t

-- The socket is closed; the window's listener stays.
unfoldable pub will_unmount : Single → Single
will_unmount t = if t.socket then record t { open' = false } else t

-- What happens to a terminal whose socket stands.
pub data Event : Type 0 where
  opens resizes : (size : Text) → Event
  fails closes unmounts : Event
  tells : (raw : Text) → Event
  types : (typed : Text) → Event
  updates : Bool → Option Text → Event

unfoldable pub on_event : Event → Single → Single
unfolding single_on_open single_on_window_resize single_on_error single_on_close will_unmount
    single_on_message single_on_data single_status_updated
on_event (opens size) t = single_on_open size t
on_event (resizes size) t = single_on_window_resize size t
on_event fails t = single_on_error t
on_event closes t = single_on_close t
on_event unmounts t = will_unmount t
on_event (tells raw) t = single_on_message raw t
on_event (types typed) t = single_on_data typed t
on_event (updates done said) t = single_status_updated done said t

unfoldable pub run_single : List Event → Single → Single
unfolding on_event
run_single [] t = t
run_single (e ∷ es) t = run_single es (on_event e t)
