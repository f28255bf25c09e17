-- ===== src/Access/Input.antt =====
-- The client of the desktop page as it is connected, and its keyboard, its mouse and the window's focus
-- (`renderDisplay` and `handleWindowFocus` of web/src/components/access/Guacd.js). A place of the mouse is
-- a fraction.
use next_terminal.Base.{
  ℕ, ◌*◌, ◌==◌, min, Bool, false, Option, none, some, List, [], ◌∷◌, if◌then◌else◌,
}
use next_terminal.Base.Text.{Text, codes, decimal, text_eq}
use next_terminal.Access.Desktop.{Guacd, key_down, key_up, scale, call, send_clipboard}

-- 96 dots to the inch, and twice as many for telnet.
unfoldable pub dpi : (protocol : Text) → ℕ
dpi protocol = if text_eq protocol (codes "telnet") then 96 * 2 else 96

-- What `connect` is given.
unfoldable pub connect_params : (protocol width height token : Text) → List (Text × Text)
unfolding dpi
connect_params protocol width height token =
    (codes "width", width)
    ∷ (codes "height", height)
    ∷ (codes "dpi", decimal (dpi protocol))
    ∷ (codes "X-Auth-Token", token)
    ∷ []

-- `display.onresize`
unfoldable pub on_display_resize : (inner_width inner_height display_height : ℕ) → Guacd → Guacd
on_display_resize inner_width inner_height display_height =
    call (scale (min inner_height inner_width) display_height ∷ [])

-- `keyboard.onkeydown`, which returns false or nothing.
unfoldable pub on_key_down : ℕ → Guacd → Guacd × Option Bool
on_key_down keysym g =
    (call (key_down (decimal keysym) ∷ []) g, if keysym == 65288 then some false else none)

unfoldable pub on_key_up : ℕ → Guacd → Guacd
on_key_up keysym = call (key_up (decimal keysym) ∷ [])

-- What is done with a mouse or a touch: the sink is focused after a delay, the cursor is hidden, and a
-- place is sent.
pub data Pointing : Type 0 where
  focus_later hide_cursor : Pointing
  send_mouse : (x y : ℕ × ℕ) → Pointing

-- A place by the scale of the display, which is a fraction too.
abbrev unscaled : (scale' : ℕ × ℕ) → ℕ × ℕ → ℕ × ℕ
unscaled (m, k) (n, d) = (n * k, d * m)

unfoldable pub on_mouse_button : (x y : ℕ × ℕ) → List Pointing
on_mouse_button x y = focus_later ∷ send_mouse x y ∷ []

unfoldable pub on_mouse_move : (scale' x y : ℕ × ℕ) → List Pointing
on_mouse_move scale' x y =
    focus_later ∷ hide_cursor ∷ send_mouse (unscaled scale' x) (unscaled scale' y) ∷ []

unfoldable pub on_touch : (x y : ℕ × ℕ) → List Pointing
on_touch x y = send_mouse x y ∷ []

-- The text of the system's clipboard, where there is one that can be read.
unfoldable pub handle_window_focus : Option Text → Guacd → Guacd
unfolding send_clipboard
handle_window_focus none g = g
handle_window_focus (some text) g = send_clipboard (codes "text/plain") text g
