-- ===== src/Access/Toolbar.antt =====
-- What lies over the desktop page (web/src/components/access/Guacd.js, GuacdClipboard.js there) and over the
-- terminal page (Term.js there): the buttons, the menu of combinations of keys, the dialogue of the
-- clipboard and the drawers.
use next_terminal.Base.{
  ℕ, suc, ◌≡◌, refl, Bool, true, false, not, ◌&&◌, Option, none, some, List, [], ◌∷◌, ◌++◌,
  if◌then◌else◌,
}
use next_terminal.Base.Text.{Text, codes, text_eq}
use next_terminal.Files.Manager.{Rights}
use next_terminal.Access.Desktop.{
  send_text, focus, Guacd, send_clipboard, on_clipboard, clipboard_ok, clipboard_cancel,
  shows_clipboard, denied,
}

-- The entries of the menu, with the keys that are sent.
unfoldable pub hot_key_menu : List (Text × List Text)
hot_key_menu =
    (codes "Ctrl+Alt+Delete", codes "65507" ∷ codes "65513" ∷ codes "65535" ∷ [])
    ∷ (codes "Ctrl+Alt+Backspace", codes "65507" ∷ codes "65513" ∷ codes "65288" ∷ [])
    ∷ (codes "Windows+D", codes "65515" ∷ codes "100" ∷ [])
    ∷ (codes "Windows+E", codes "65515" ∷ codes "101" ∷ [])
    ∷ (codes "Windows+R", codes "65515" ∷ codes "114" ∷ [])
    ∷ (codes "Windows+X", codes "65515" ∷ codes "120" ∷ [])
    ∷ (codes "Windows", codes "65515" ∷ [])
    ∷ []

-- The rights of a session that the file manager is given, "1" or something else, or absent.
pub record Granted : Type 0 where
  pub file_system : Option Text
  pub upload : Option Text
  pub download : Option Text
  pub delete : Option Text
  pub rename : Option Text
  pub edit : Option Text

abbrev is_one : Option Text → Bool
is_one none = false
is_one (some right) = text_eq right (codes "1")

unfoldable pub session_rights : Granted → Rights
session_rights session = record {
  upload = is_one session.upload;
  download = is_one session.download;
  delete = is_one session.delete;
  rename = is_one session.rename;
  edit = is_one session.edit;
}

pub data Button : Type 0 where
  full_screen_button clipboard_button keys_button files_button : Button

abbrev one_if : Bool → Button → List Button
one_if shown button = if shown then button ∷ [] else []

-- The buttons over the desktop, in their order.
unfoldable pub desktop_buttons : (protocol : Text) → Granted → Guacd → List Button
unfolding shows_clipboard
desktop_buttons protocol session g =
    full_screen_button
    ∷ (one_if (shows_clipboard g) clipboard_button
        ++ (one_if (text_eq protocol (codes "vnc")) keys_button
            ++ (one_if (text_eq protocol (codes "rdp") && is_one session.file_system) files_button
                ++ one_if (text_eq protocol (codes "rdp")) keys_button)))

unfoldable pub show_files : Guacd → Guacd
show_files g = record g { file_system_visible = true }

-- `focus`, and then the drawer closes.
unfoldable pub close_files : Guacd → Guacd
close_files g = record g {
  file_system_visible = false;
  calls = g.calls ++ (if g.client then focus ∷ [] else []);
}

-- The desktop with the dialogue of its clipboard, which has a field.
pub record Dialogue : Type 0 where
  pub desktop : Guacd
  pub field : Text

-- The field is set to the page's text where the dialogue has opened or closed, and only there.
unfoldable pub rendered : Guacd → Dialogue → Dialogue
rendered g d = record {
  desktop = g;
  field =
      if (if g.clipboard_visible
        then d.desktop.clipboard_visible
        else not d.desktop.clipboard_visible)
      then d.field
      else g.clipboard_text;
}

unfoldable pub show_clipboard : Dialogue → Dialogue
unfolding rendered
show_clipboard d = rendered (record d.desktop { clipboard_visible = true }) d

-- The button is in progress while the handler runs, and not any more when that has ended.
unfoldable pub dialogue_ok : Dialogue → Dialogue
unfolding rendered clipboard_ok
dialogue_ok d = rendered (clipboard_ok d.field d.desktop) d

unfoldable pub dialogue_cancel : Dialogue → Dialogue
unfolding rendered clipboard_cancel
dialogue_cancel d = rendered (clipboard_cancel d.desktop) d

unfoldable pub edit_text : Text → Dialogue → Dialogue
edit_text text d = record d { field = text }

unfoldable pub receive : Bool → Text → Dialogue → Dialogue
unfolding rendered on_clipboard
receive has_clipboard data' d = rendered (on_clipboard has_clipboard data' d.desktop) d

-- The dialogue of a client that may paste, opened and confirmed without a change, sends the text that the
-- page has, and closes.
pub dialogue_ok-show_clipboard :
    (d : Dialogue)
    → d.desktop.client ≡ true
    → denied d.desktop.session.paste ≡ false
    → d.desktop.clipboard_visible ≡ false
    → (dialogue_ok (show_clipboard d)).desktop ≡ record d.desktop {
      calls =
          (d.desktop.calls ++ send_text (codes "text/plain") d.desktop.clipboard_text ∷ [])
          ++ focus ∷ [];
      clipboard_visible = false;
    }
unfolding dialogue_ok show_clipboard rendered clipboard_ok send_clipboard
dialogue_ok-show_clipboard d client free shut = rw (shut, client, free) refl

-- The terminal's drawers, their buttons' place above or below the terminal's input, which lies at 1000,
-- and the milliseconds between two questions for the statistics. `focuses` counts the calls of `focus`.
pub record Drawers : Type 0 where
  pub file_system_visible : Bool
  pub stats_visible : Bool
  pub enter_btn_z_index : ℕ
  pub query_interval : ℕ
  pub focuses : ℕ

unfoldable pub initial_drawers : Drawers
initial_drawers = record {
  file_system_visible = false;
  stats_visible = false;
  enter_btn_z_index = 999;
  query_interval = 5000;
  focuses = 0;
}

pub data Turn : Type 0 where
  opens_files closes_files opens_stats closes_stats : Turn
  selects_interval : ℕ → Turn

unfoldable pub turn : Turn → Drawers → Drawers
turn opens_files t = record t { file_system_visible = true; enter_btn_z_index = 999 }
turn closes_files t = record t {
  file_system_visible = false;
  enter_btn_z_index = 1001;
  focuses = suc t.focuses;
}
turn opens_stats t = record t { stats_visible = true; enter_btn_z_index = 999 }
turn closes_stats t = record t {
  stats_visible = false;
  enter_btn_z_index = 1001;
  focuses = suc t.focuses;
}
turn (selects_interval value) t = record t { query_interval = value }
