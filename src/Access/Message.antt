-- ===== src/Access/Message.antt =====
-- The messages of the terminal's socket (web/src/components/access/Message.js).
use next_terminal.Base.{
  ℕ, ◌+◌, ◌-◌, ◌<◌, ◌≡◌, ap, ◌∙◌, ◌&&◌, Option, none, some, [], ◌∷◌, ◌++◌, leb, if◌then◌else◌,
  if_true, arith, lt→ltb,
}
use next_terminal.Base.Text.{Text, decimal}

-- `type` is `none` where the first character is no digit.
pub record Message : Type 0 where
  pub type : Option ℕ
  pub content : Text

abbrev pub closed : ℕ
closed = 0

abbrev pub connected : ℕ
connected = 1

abbrev pub data' : ℕ
data' = 2

abbrev pub resize : ℕ
resize = 3

abbrev pub ping : ℕ
ping = 4

-- `new Message(type, content).toString()`
unfoldable pub to_string : ℕ → Text → Text
to_string type content = decimal type ++ content

-- `parseInt` of a text of one character
unfoldable pub digit : ℕ → Option ℕ
digit c = if leb b'0' c && leb c b'9' then some (c - b'0') else none

unfoldable pub parse : Text → Message
unfolding digit
parse [] = record { type = none; content = [] }
parse (c ∷ s) = record { type = digit c; content = s }

decimal_of_digit : (n : ℕ) → n < 10 → decimal n ≡ (b'0' + n) ∷ []
unfolding decimal
decimal_of_digit n h = if_true _ _ (lt→ltb n 10 h)

-- A message of a type below 10 is read back as it was written, whatever its content.
pub parse-to_string :
    (type : ℕ) (content : Text)
    → type < 10
    → parse (to_string type content) ≡ record { type = some type; content = content }
unfolding parse to_string
parse-to_string type content h =
    ap (λ t. parse (t ++ content)) (decimal_of_digit type h) ∙ ground arith
