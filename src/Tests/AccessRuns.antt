-- ===== src/Tests/AccessRuns.antt =====
-- The pages of a terminal and of a desktop (web/src/components/access, web/src/components/session).
use next_terminal.Base.{
  ◌*◌, ◌<◌, ◌≡◌, refl, min, true, false, ◌&&◌, not, none, some, List, [], ◌∷◌, ◌++◌, any, arith,
}
use next_terminal.Base.Text.{Text, codes, text_eq}
use next_terminal.Access.Message.{parse, to_string, resize, parse-to_string}
use next_terminal.Access.Terminal.{Command, Terminal, Monitor}
use next_terminal.Access.Transcript.{
  Event, opened, tick, typed, received, closed', run, IsLive, run-IsLive,
}
use next_terminal.Access.Closing.{run-closed}
use next_terminal.Access.Desktop.{
  Guacd, Session, scale, send_size, create_session, on_clipboard, no_session, send_combination_key,
  on_window_resize,
}
use next_terminal.Access.Keys.{Held, play, send_combination_key-play, on_clipboard-create_session}
use next_terminal.Access.Display.{on_window_resize-overflows}

parse-to_string_example :
    parse (to_string resize (codes "e30=")) ≡ record { type = some 3; content = codes "e30=" }
parse-to_string_example = parse-to_string resize (codes "e30=") (ground arith)

abbrev same : Text → Text
same t = t

abbrev list_files : Command
list_files = record { id = codes "1"; content = codes "ls" }

abbrev fresh : Terminal
fresh = record {
  session = none;
  socket = true;
  open' = false;
  pinging = false;
  outputs = [];
  sent = [];
  notices = [];
  commands = list_files ∷ [];
  width = 800;
  height = 600;
}

abbrev events : List Event
events = opened ∷ typed (codes "ls") ∷ tick ∷ closed' ∷ tick ∷ []

run-IsLive_example : IsLive same false (run same false events fresh)
run-IsLive_example =
    run-IsLive same false events fresh (record { timer = λ o. ground (arith, o); requests = tt })

-- An open terminal with a timer.
abbrev lively : Terminal
lively = record fresh { open' = true; pinging = true }

run-closed_example :
    (run same false (received (codes "0bye") ∷ typed (codes "ls") ∷ tick ∷ []) lively).sent ≡ []
unfolding parse
run-closed_example =
    run-closed same false (codes "0bye") (typed (codes "ls") ∷ tick ∷ []) lively refl refl

abbrev watching : Monitor
watching = record { screen = []; waiting = true; closing = false }

abbrev desktop : Guacd
desktop = record {
  fixed_size = false;
  box = (800, 900);
  client = true;
  session = no_session;
  seen = no_session;
  clipboard_text = [];
  system_clipboard = none;
  full_screened = false;
  clipboard_visible = false;
  file_system_visible = false;
  calls = [];
  notices = [];
}

abbrev nothing : Held
nothing key = false

abbrev windows_d : List Text
windows_d = codes "65515" ∷ codes "100" ∷ []

send_combination_key-play_example :
    play (send_combination_key windows_d desktop).calls nothing (codes "100") ≡ (
      not (any (λ key. text_eq key (codes "100")) windows_d)
      && play desktop.calls nothing (codes "100"))
send_combination_key-play_example =
    send_combination_key-play windows_d desktop nothing (codes "100") refl

abbrev sealed : Session
sealed = record { id = some (codes "s"); copy = some (codes "0"); paste = some (codes "0") }

on_clipboard-create_session_example :
    ((create_session sealed desktop).session ≡ sealed)
    × ((on_clipboard true (codes "secret") (create_session sealed desktop)).clipboard_text
        ≡ codes "secret")
    × ((on_clipboard true (codes "secret") (create_session sealed desktop)).system_clipboard
        ≡ some (codes "secret"))
on_clipboard-create_session_example =
    on_clipboard-create_session sealed (codes "s") desktop (codes "secret") refl refl refl

on_window_resize-overflows_example :
    ((on_window_resize 800 900 1600 900 desktop).calls
      ≡ desktop.calls ++ (scale (min 900 800) 900 ∷ send_size 800 900 ∷ []))
    × (800 * 900 < 1600 * min 900 800)
on_window_resize-overflows_example =
    on_window_resize-overflows 800 900 1600 900 desktop (ground arith) (ground arith) (ground arith)
      refl refl
