-- ===== src/Access/Transcript.antt =====
-- What the terminal shows and sends over a whole run of events.
use next_terminal.Base.{
  ℕ, ◌≡◌, refl, sym, ap, ◌∙◌, ◌⊎◌, inl, inr, Bool, true, false, ◌&&◌, some, List, [], ◌∷◌, ◌++◌,
  map, keep, All, All-append, if_both, if_true, if_false, Bool-cases, ◌==◌, if◌then◌else◌, arith,
}
use mathlib.Core.List.{append_assoc, append-nil}
use next_terminal.Base.Text.{Text, text_eq}
use next_terminal.Access.Message.{data', resize, ping, to_string, parse, parse-to_string}
use next_terminal.Access.Terminal.{
  clear, write, Command, Terminal, Monitor, taken, transmit, on_open, on_close, on_error, on_tick,
  on_data, on_message, on_window_resize, size_json, write_command, send_commands,
  handle_cmd_menu_click, monitor_on_message,
}

-- What happens to the page, behind `init`.
pub data Event : Type 0 where
  opened closed' tick : Event
  failed typed received chosen : Text → Event
  resized : (width height cols rows : ℕ) → Event

-- The monitor over a run of data.
pub watch : List Text → Monitor → Monitor
watch [] m = m
watch (content ∷ contents) m = watch contents (monitor_on_message (to_string data' content) m)

module _ (btoa : Text → Text) (is_worker : Bool) where
  unfoldable pub step : Event → Terminal → Terminal
  step opened t = on_open t
  step closed' t = on_close t
  step tick t = on_tick t
  step (failed said) t = on_error said t
  step (typed text) t = on_data text t
  step (received raw) t = on_message is_worker raw t
  step (chosen key) t = handle_cmd_menu_click key t
  step (resized width height cols rows) t = on_window_resize btoa width height cols rows t

  unfoldable pub run : List Event → Terminal → Terminal
  run [] t = t
  run (e ∷ es) t = run es (step e t)

  -- A message that the page may send.
  abbrev pub IsRequest : Text → Type 0
  IsRequest raw =
      (type : ℕ) × (content : Text) × (parse raw ≡ record { type = some type; content = content })
      × ((type ≡ data') ⊎ ((type ≡ resize) ⊎ (type ≡ ping)))

  -- While the socket is open the timer of the pings runs, and all that has been sent are messages of the
  -- page.
  pub record IsLive (t : Terminal) : Type 0 where
    pub timer : t.open' ≡ true → t.pinging ≡ true
    pub requests : All IsRequest t.sent

  data-IsRequest : (content : Text) → IsRequest (to_string data' content)
  data-IsRequest content = (data', content, parse-to_string data' content (omega arith), inl refl)

  sends :
      (t : Terminal) (type : ℕ) (content : Text)
      → IsRequest (to_string type content)
      → IsLive t
      → IsLive (transmit type content t)
  sends t type content r v =
      if_both IsLive t.open' (taken type content t) t
        (record {
          timer = v.timer;
          requests = All-append IsRequest t.sent (to_string type content ∷ []) v.requests (r, tt);
        })
        v

  write_command-IsLive : (text : Text) (t : Terminal) → IsLive t → IsLive (write_command text t)
  unfolding write_command
  write_command-IsLive text t v =
      if_both IsLive t.socket (transmit data' text t) t (sends t data' text (data-IsRequest text) v)
        v

  send_commands-IsLive :
      (key : Text) (commands : List Command) (t : Terminal)
      → IsLive t
      → IsLive (send_commands key commands t)
  unfolding send_commands
  send_commands-IsLive key [] t v = v
  send_commands-IsLive key (command ∷ commands) t v =
      send_commands-IsLive key commands
        (if text_eq command.id key then write_command command.content t else t)
        (if_both IsLive (text_eq command.id key) (write_command command.content t) t
          (write_command-IsLive command.content t v) v)

  on_message-keeps :
      (raw : Text) (t : Terminal)
      → ((on_message is_worker raw t).pinging ≡ t.pinging)
        × ((on_message is_worker raw t).open' ≡ true → t.open' ≡ true)
        × ((on_message is_worker raw t).sent ≡ t.sent)
  unfolding on_message
  on_message-keeps raw t = (ground arith, λ o. ground (arith, o), ground arith)

  step-IsLive : (e : Event) (t : Terminal) → IsLive t → IsLive (step e t)
  unfolding step on_open on_close on_tick on_error on_data handle_cmd_menu_click on_window_resize
  step-IsLive opened t v = record { timer = λ o. refl; requests = v.requests }
  step-IsLive closed' t v = record { timer = λ o. ground (arith, o); requests = v.requests }
  step-IsLive tick t v =
      if_both IsLive t.pinging (transmit ping [] t) t
        (sends t ping [] (ping, [], parse-to_string ping [] (omega arith), inr (inr refl)) v) v
  step-IsLive (failed said) t v = record { timer = v.timer; requests = v.requests }
  step-IsLive (typed text) t v =
      if_both IsLive t.socket (transmit data' text t) t (sends t data' text (data-IsRequest text) v)
        v
  step-IsLive (received raw) t v =
      let (p, o, s) = on_message-keeps raw t in
      record { timer = λ open'. p ∙ v.timer (o open'); requests = rw s v.requests }
  step-IsLive (chosen key) t v = send_commands-IsLive key t.commands t v
  step-IsLive (resized width height cols rows) t v =
      let t' = record t { width = width; height = height } in
      let size = btoa (size_json cols rows) in
      let v' : IsLive t' = record { timer = v.timer; requests = v.requests } in
      if_both IsLive ((width == t.width) && (height == t.height)) t
        (if t.socket && t.open' then transmit resize size t' else t') v
        (if_both IsLive (t.socket && t.open') (transmit resize size t') t'
          (sends t' resize size
            (resize, size, parse-to_string resize size (omega arith), inr (inl refl)) v')
          v')

  -- If the timer of the pings runs where the socket is open, and all texts sent so far read back as
  -- messages of data, a size or a ping, then both still hold after any run of events of the page
  -- and the socket.
  pub run-IsLive : (es : List Event) (t : Terminal) → IsLive t → IsLive (run es t)
  unfolding run
  run-IsLive [] t v = v
  run-IsLive (e ∷ es) t v = run-IsLive es (step e t) (step-IsLive e t v)

  abbrev pub data_event : Text → Event
  data_event content = received (to_string data' content)

  on_message-data :
      (content : Text) (t : Terminal)
      → on_message is_worker (to_string data' content) t
        ≡ record t { outputs = t.outputs ++ write content ∷ [] }
  unfolding on_message
  on_message-data content t = rw (parse-to_string data' content (omega arith))

  -- Data from the server is written to the terminal piece by piece, in order and unchanged.
  pub run-data :
      (contents : List Text) (t : Terminal)
      → (run (map data_event contents) t).outputs ≡ t.outputs ++ map write contents
  unfolding run step
  run-data [] t = sym (append-nil t.outputs)
  run-data (content ∷ contents) t =
      ap (λ u. (run (map data_event contents) u).outputs) (on_message-data content t)
      ∙ run-data contents (record t { outputs = t.outputs ++ write content ∷ [] })
      ∙ append_assoc t.outputs (write content ∷ []) (map write contents)

abbrev pub called : Text → Command → Bool
called key command = text_eq command.id key

abbrev pub request_of : Command → Text
request_of command = to_string data' command.content

write_command-on :
    (text : Text) (t : Terminal)
    → t.socket ≡ true
    → t.open' ≡ true
    → write_command text t ≡ taken data' text t
unfolding write_command
write_command-on text t h o = rw (h, o) refl

send_commands-sent :
    (key : Text) (commands : List Command) (t : Terminal)
    → t.socket ≡ true
    → t.open' ≡ true
    → (send_commands key commands t).sent ≡ t.sent ++ map request_of (keep (called key) commands)
unfolding send_commands
send_commands-sent key [] t h o = sym (append-nil t.sent)
send_commands-sent key (command ∷ commands) t h o = elim (Bool-cases (text_eq command.id key)) [
  | inl same ↦ rw same (
      ap (λ u. (send_commands key commands u).sent)
        (if_true (write_command command.content t) t same ∙ write_command-on command.content t h o)
      ∙ send_commands-sent key commands (taken data' command.content t) h o
      ∙ append_assoc t.sent (request_of command ∷ []) (map request_of (keep (called key) commands)))
  | inr other ↦ rw other (
      ap (λ u. (send_commands key commands u).sent)
        (if_false (write_command command.content t) t other)
      ∙ send_commands-sent key commands t h o)
]

-- Choosing an entry of the command menu sends the contents of the commands with its key, in order,
-- if the socket is open.
pub handle_cmd_menu_click-sent :
    (key : Text) (t : Terminal)
    → t.socket ≡ true
    → t.open' ≡ true
    → (handle_cmd_menu_click key t).sent ≡ t.sent ++ map request_of (keep (called key) t.commands)
unfolding handle_cmd_menu_click
handle_cmd_menu_click-sent key t h o = send_commands-sent key t.commands t h o

monitor_on_message-data :
    (content : Text) (m : Monitor)
    → monitor_on_message (to_string data' content) m ≡ record m {
      screen = m.screen ++ ((if m.waiting then clear ∷ [] else []) ++ write content ∷ []);
      waiting = false;
    }
unfolding monitor_on_message
monitor_on_message-data content m = rw (parse-to_string data' content (omega arith))

watch-on :
    (contents : List Text) (m : Monitor)
    → m.waiting ≡ false
    → (watch contents m).screen ≡ m.screen ++ map write contents
unfolding watch
watch-on [] m h = sym (append-nil m.screen)
watch-on (content ∷ contents) m h =
    let now = m.screen ++ write content ∷ [] in
    ap (λ u. (watch contents u).screen)
      (monitor_on_message-data content m
        ∙ ap (λ os. record m { screen = m.screen ++ (os ++ write content ∷ []); waiting = false })
            (ap (λ b. if b then clear ∷ [] else []) h))
    ∙ watch-on contents (record m { screen = now; waiting = false }) refl
    ∙ append_assoc m.screen (write content ∷ []) (map write contents)

-- The monitor that waits clears its notice once, before the first data, and writes all data in
-- order.
pub monitor-data :
    (content : Text) (contents : List Text) (m : Monitor)
    → m.waiting ≡ true
    → (watch (content ∷ contents) m).screen ≡ m.screen ++ clear ∷ map write (content ∷ contents)
unfolding watch
monitor-data content contents m h =
    ap (λ u. (watch contents u).screen)
      (monitor_on_message-data content m
        ∙ ap (λ os. record m { screen = m.screen ++ (os ++ write content ∷ []); waiting = false })
            (ap (λ b. if b then clear ∷ [] else []) h))
    ∙ watch-on contents
        (record m { screen = m.screen ++ (clear ∷ write content ∷ []); waiting = false }) refl
    ∙ append_assoc m.screen (clear ∷ write content ∷ []) (map write contents)
