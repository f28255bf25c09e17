-- ===== src/Access/Closing.antt =====
-- The terminal's socket (web/src/components/access/Term.js) once the server has ended the session.
use next_terminal.Base.{
  ℕ, ◌≡◌, refl, ap, Bool, true, false, ◌&&◌, Option, none, some, List, [], ◌∷◌, any, if_both, ◌==◌,
  if◌then◌else◌, arith,
}
use next_terminal.Base.Text.{Text, text_eq}
use next_terminal.Access.Message.{closed, data', resize, ping, parse}
use next_terminal.Access.Terminal.{
  Command, Terminal, transmit, type_is, on_open, on_close, on_error, on_tick, on_data, on_message,
  on_window_resize, size_json, write_command, send_commands, handle_cmd_menu_click,
}
use next_terminal.Access.Transcript.{
  Event, opened, closed', tick, failed, typed, received, chosen, resized, step, run,
}

type_is-closed : (type : Option ℕ) → type_is type closed ≡ true → type ≡ some closed
type_is-closed none e = ground (arith, e)
type_is-closed (some k) e = ap some (ground (arith, e))

abbrev pub is_opened : Event → Bool
is_opened opened = true
is_opened _ = false

module _ (btoa : Text → Text) (is_worker : Bool) where
  -- A socket that is open no more, with what it has taken.
  abbrev IsShut : List Text → Terminal → Type 0
  IsShut sent t = (t.open' ≡ false) × (t.sent ≡ sent)

  transmit-IsShut :
      (sent : List Text) (type : ℕ) (content : Text) (t : Terminal)
      → IsShut sent t
      → IsShut sent (transmit type content t)
  transmit-IsShut sent type content t h = rw (h.0) (refl, h.1)

  write_command-IsShut :
      (sent : List Text) (text : Text) (t : Terminal)
      → IsShut sent t
      → IsShut sent (write_command text t)
  unfolding write_command
  write_command-IsShut sent text t h =
      if_both (IsShut sent) t.socket (transmit data' text t) t (transmit-IsShut sent data' text t h)
        h

  send_commands-IsShut :
      (sent : List Text) (key : Text) (commands : List Command) (t : Terminal)
      → IsShut sent t
      → IsShut sent (send_commands key commands t)
  unfolding send_commands
  send_commands-IsShut sent key [] t h = h
  send_commands-IsShut sent key (command ∷ commands) t h =
      send_commands-IsShut sent key commands
        (if text_eq command.id key then write_command command.content t else t)
        (if_both (IsShut sent) (text_eq command.id key) (write_command command.content t) t
          (write_command-IsShut sent command.content t h) h)

  step-IsShut :
      (sent : List Text) (e : Event) (t : Terminal)
      → is_opened e ≡ false
      → IsShut sent t
      → IsShut sent (step btoa is_worker e t)
  unfolding step on_open on_close on_tick on_error on_data handle_cmd_menu_click on_window_resize
      on_message
  step-IsShut sent opened t quiet h = ground (arith, quiet)
  step-IsShut sent closed' t quiet h = (refl, h.1)
  step-IsShut sent tick t quiet h =
      if_both (IsShut sent) t.pinging (transmit ping [] t) t (transmit-IsShut sent ping [] t h) h
  step-IsShut sent (failed said) t quiet h = h
  step-IsShut sent (typed text) t quiet h =
      if_both (IsShut sent) t.socket (transmit data' text t) t (transmit-IsShut sent data' text t h)
        h
  step-IsShut sent (received raw) t quiet h = (ground (arith, h.0), ground (arith, h.1))
  step-IsShut sent (chosen key) t quiet h = send_commands-IsShut sent key t.commands t h
  step-IsShut sent (resized width height cols rows) t quiet h =
      let t' = record t { width = width; height = height } in
      let size = btoa (size_json cols rows) in
      if_both (IsShut sent) ((width == t.width) && (height == t.height)) t
        (if t.socket && t.open' then transmit resize size t' else t') h
        (if_both (IsShut sent) (t.socket && t.open') (transmit resize size t') t'
          (transmit-IsShut sent resize size t' h) h)

  run-IsShut :
      (sent : List Text) (es : List Event) (t : Terminal)
      → any is_opened es ≡ false
      → IsShut sent t
      → IsShut sent (run btoa is_worker es t)
  unfolding run
  run-IsShut sent [] t quiet h = h
  run-IsShut sent (e ∷ es) t quiet h =
      run-IsShut sent es (step btoa is_worker e t) (ground (arith, quiet))
        (step-IsShut sent e t (ground (arith, quiet)) h)

  on_message-closed :
      (raw : Text) (t : Terminal)
      → type_is (parse raw).type closed ≡ true
      → IsShut t.sent (on_message is_worker raw t)
  unfolding on_message
  on_message-closed raw t e = rw (type_is-closed (parse raw).type e) (refl, refl)

  -- After a message of the server that closes the session, the terminal sends nothing over any run
  -- of further events in which the socket is not opened anew: no typed text, no command, no size
  -- and no ping of the timer that still runs.
  pub run-closed :
      (raw : Text) (es : List Event) (t : Terminal)
      → type_is (parse raw).type closed ≡ true
      → any is_opened es ≡ false
      → (run btoa is_worker (received raw ∷ es) t).sent ≡ t.sent
  unfolding run step
  run-closed raw es t e quiet =
      (run-IsShut t.sent es (on_message is_worker raw t) quiet (on_message-closed raw t e)).1
