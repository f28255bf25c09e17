-- ===== src/Access/Keys.antt =====
-- What a combination of keys leaves pressed on the remote machine, and which rights the clipboard
-- handlers respect (web/src/components/access/Guacd.js).
use next_terminal.Base.{
  ◌≡◌, refl, ap, ◌∙◌, Bool, true, false, not, ◌&&◌, ◌||◌, some, List, [], ◌∷◌, ◌++◌, map, any,
  arith,
}
use next_terminal.Base.Text.{Text, text_eq, has_text}
use next_terminal.Access.Desktop.{
  Call, key_down, key_up, Guacd, Session, denied, create_session, on_clipboard, send_clipboard,
  send_combination_key,
}

-- Which keys are down.
abbrev pub Held : Type 0
Held = Text → Bool

abbrev press : Call → Held → Held
press (key_down key) held k = text_eq key k || held k
press (key_up key) held k = not (text_eq key k) && held k
press _ held k = held k

abbrev pub play : List Call → Held → Held
play [] held = held
play (c ∷ cs) held = play cs (press c held)

play-append : (cs ds : List Call) (held : Held) → play (cs ++ ds) held ≡ play ds (play cs held)
play-append [] ds held = refl
play-append (c ∷ cs) ds held = play-append cs ds (press c held)

play-down :
    (keys : List Text) (held : Held) (k : Text)
    → play (map key_down keys) held k ≡ (any (λ key. text_eq key k) keys || held k)
play-down [] held k = refl
play-down (key ∷ keys) held k = play-down keys (press (key_down key) held) k ∙ ground arith

play-up :
    (keys : List Text) (held : Held) (k : Text)
    → play (map key_up keys) held k ≡ (not (any (λ key. text_eq key k) keys) && held k)
play-up [] held k = refl
play-up (key ∷ keys) held k = play-up keys (press (key_up key) held) k ∙ ground arith

absorbed : (a b : Bool) → (not a && (a || b)) ≡ (not a && b)
absorbed true b = refl
absorbed false b = refl

-- A combination of keys goes down and up again: with a client, none of its keys stays down on the
-- remote machine and every other key is as it was before.
pub send_combination_key-play :
    (keys : List Text) (g : Guacd) (held : Held) (k : Text)
    → g.client ≡ true
    → play (send_combination_key keys g).calls held k
      ≡ (not (any (λ key. text_eq key k) keys) && play g.calls held k)
unfolding send_combination_key
send_combination_key-play keys g held k h = simp h (
    ap (λ f. f k)
      (play-append g.calls (map key_down keys ++ map key_up keys) held
        ∙ play-append (map key_down keys) (map key_up keys) (play g.calls held))
    ∙ play-up keys (play (map key_down keys) (play g.calls held)) k
    ∙ ap (λ b. not (any (λ key. text_eq key k) keys) && b) (play-down keys (play g.calls held) k)
    ∙ absorbed (any (λ key. text_eq key k) keys) (play g.calls held k))

-- A text received from the remote machine reaches the clipboard whatever the right to copy of the
-- session that was created, if the session before it did not deny copying: the handler sees that
-- session.
pub on_clipboard-create_session :
    (created : Session) (id : Text) (g : Guacd) (data' : Text)
    → created.id ≡ some id
    → has_text id ≡ true
    → denied g.session.copy ≡ false
    → ((create_session created g).session ≡ created)
      × ((on_clipboard true data' (create_session created g)).clipboard_text ≡ data')
      × ((on_clipboard true data' (create_session created g)).system_clipboard ≡ some data')
unfolding create_session on_clipboard
on_clipboard-create_session created id g data' e h d = ground arith

-- Nothing is sent to the clipboard of the remote machine without the right to paste.
pub send_clipboard-denied :
    (type data' : Text) (g : Guacd)
    → denied g.session.paste ≡ true
    → (send_clipboard type data' g).calls ≡ g.calls
unfolding send_clipboard
send_clipboard-denied type data' g h = ground arith
