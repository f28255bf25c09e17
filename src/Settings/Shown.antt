-- ===== src/Settings/Shown.antt =====
-- What the tabs of the settings show of the server's properties
-- (web/src/components/setting/Setting.js).
use next_terminal.Base.{
  ◌≡◌, refl, sym, Bool, true, false, not, ◌&&◌, Option, none, some, List, All, All-imp, any, ap,
  ◌∙◌,
}
use next_terminal.Base.Text.{Text, codes, text_eq}
use next_terminal.Assets.Fields.{Fields, value_of}
use next_terminal.Views.Items.{Item, fits, fits_toggle, is_toggle, names, distinct, All-of_every}
use next_terminal.Settings.Properties.{starts_with, is_switch, read_properties}
use next_terminal.Settings.Laws.{sent_as, as_read, value_of-read_properties}
use next_terminal.Settings.Tabs.{
  tabs, rdp_items, telnet_items, vnc_items, guacd_items, mail_items, log_items, other_items,
  all_items,
}

abbrev same : Bool → Bool → Bool
same true b = b
same false b = not b

abbrev pub swap_red_blue : Text
swap_red_blue = codes "swap-red-blue"

abbrev pub was_sent : Option Text → Bool
was_sent none = false
was_sent (some t) = true

-- A value that was read as a switch, or as none, fits a switch and nothing else.
fits_toggle-as_read :
    (toggle b : Bool) (o : Option Text)
    → fits_toggle toggle (as_read b o) ≡ not (not (same toggle b) && was_sent o)
fits_toggle-as_read true true (some t) = refl
fits_toggle-as_read true true none = refl
fits_toggle-as_read true false (some t) = refl
fits_toggle-as_read true false none = refl
fits_toggle-as_read false true (some t) = refl
fits_toggle-as_read false true none = refl
fits_toggle-as_read false false (some t) = refl
fits_toggle-as_read false false none = refl

-- An item is shown as a switch exactly if its property is read as one, but for one of them.
abbrev agrees : Item → Bool
agrees item =
    same (same (is_toggle item.control) (is_switch item.name))
      (not (text_eq item.name swap_red_blue))

all_items-agree : (page : Fields) → any (λ item. not (agrees item)) (all_items page) ≡ false
unfolding tabs rdp_items telnet_items vnc_items guacd_items mail_items log_items other_items
    is_switch starts_with
all_items-agree page = refl

pub all_items-distinct : (page : Fields) → distinct (names (all_items page)) ≡ true
unfolding tabs rdp_items telnet_items vnc_items guacd_items mail_items log_items other_items
all_items-distinct page = refl

same-not : (a b : Bool) → same a (not b) ≡ true → not a ≡ b
same-not true true h = h
same-not true false h = refl
same-not false true h = refl
same-not false false h = sym h

-- The value of the property fits the item, unless it is the switch of the colours and was sent.
abbrev pub IsFitting : List (Text × Text) → Item → Type 0
IsFitting sent item =
    fits item.control (value_of item.name (read_properties sent))
    ≡ not (text_eq item.name swap_red_blue && was_sent (sent_as item.name sent))

item_IsFitting :
    (sent : List (Text × Text)) (item : Item) → agrees item ≡ true → IsFitting sent item
item_IsFitting sent item h = rw (value_of-read_properties item.name sent) (
    fits_toggle-as_read (is_toggle item.control) (is_switch item.name) (sent_as item.name sent)
    ∙ ap (λ b. not (b && was_sent (sent_as item.name sent))) (same-not _ _ h))

-- Whatever properties the server sends, every item in the tabs of the settings is given a flag, or
-- nothing, if it is shown as a switch, and no flag otherwise; except the switch of the swapped
-- colours, which is given a text as soon as its property was sent.
pub all_items-read_properties :
    (sent : List (Text × Text)) (page : Fields) → All (λ item. IsFitting sent item) (all_items page)
all_items-read_properties sent page =
    All-imp _ _ (all_items page) (item_IsFitting sent)
      (All-of_every agrees (all_items page) (all_items-agree page))
