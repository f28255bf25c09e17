-- ===== src/Assets/Switches.antt =====
-- What the switches of an asset's form hold (web/src/components/asset/AssetModal.js).
use next_terminal.Base.{
  ◌≡◌, refl, Bool, true, false, not, ◌||◌, ◌&&◌, Option, none, some, List, [], ◌∷◌, ◌↔◌,
  if◌then◌else◌, All, All-imp, any, Bool-cases, inl, inr, arith,
}
use next_terminal.Base.Text.{Text, codes, text_eq}
use next_terminal.Assets.Fields.{Fields, Value, flag, value_of, value_of-assign, text_of}
use next_terminal.Assets.Form.{
  AssetForm, loaded, read_flag, read_tags, undash_value, get_item, hide,
}
use next_terminal.Assets.Basic.{Choices, first_items, kubernetes_items, account_items, last_items}
use next_terminal.Assets.Advanced.{
  Panel, items_of, drive_items, rdp_panels, ssh_panels, vnc_panels, telnet_panels,
  kubernetes_panels, advanced_panels,
}
use next_terminal.Assets.Loading.{value_of-undash_all}
use next_terminal.Assets.Showing.{shown_items, HasOptions, Passes, shown_items-Passes}
use next_terminal.Assets.Rendering.{
  is_protocol, protocol_mapping-HasOptions, All-any, taken_over, goes_over, get_item-goes_over,
  get_item-reaches,
}
use next_terminal.Views.Items.{Item, names, is_toggle, All-of_none}

abbrev flag_keys : List Text
flag_keys =
    codes "force-lossless"
    ∷ codes "enable-drive"
    ∷ codes "socks-proxy-enable"
    ∷ codes "use-ssl"
    ∷ codes "ignore-cert"
    ∷ []

abbrev pub holds_flag : Option Value → Bool
holds_flag (some (flag b)) = true
holds_flag _ = false

-- `getItem` makes a flag of each of these.
loaded-flag_keys :
    (asset : Fields) → All (λ key. holds_flag (value_of key (loaded asset)) ≡ true) flag_keys
unfolding loaded read_tags read_flag undash_value
loaded-flag_keys asset = (
  simp (value_of-assign, value_of-undash_all),
  (
    simp (value_of-assign, value_of-undash_all),
    (
      simp (value_of-assign, value_of-undash_all),
      (
        simp (value_of-assign, value_of-undash_all),
        (simp (value_of-assign, value_of-undash_all), tt),
      ),
    ),
  ),
)

abbrev is_stray : Item → Bool
is_stray item = is_toggle item.control && not (any (text_eq item.name) flag_keys)

abbrev strays_not : List Item → Bool
strays_not items = not (any is_stray items)

strays_not-Passes : (choices : Choices) → Passes strays_not choices
unfolding first_items kubernetes_items account_items last_items drive_items rdp_panels ssh_panels
    vnc_panels telnet_panels kubernetes_panels
strays_not-Passes choices options = refl

-- The item is no switch, or its field is a flag.
abbrev pub IsFlagged : Fields → Item → Type 0
IsFlagged fields item =
    not (is_toggle item.control) || holds_flag (value_of item.name fields) ≡ true

item_IsFlagged :
    (asset : Fields) (item : Item) → is_stray item ≡ false → IsFlagged (loaded asset) item
item_IsFlagged asset item h = elim (Bool-cases (any (text_eq item.name) flag_keys)) [
  | inl key ↦ ground (
    arith,
    All-any (λ key. holds_flag (value_of key (loaded asset)) ≡ true) item.name flag_keys key
        (loaded-flag_keys asset),
  )
  | inr other ↦ ground (arith, h, other)
]

none_iff : (b : Bool) (form : AssetForm) → ((if b then some form else none) ≡ none) ↔ (b ≡ false)
none_iff true form = ground arith
none_iff false form = ground arith

-- A dialogue that can be drawn, and whose switches have flags.
abbrev pub IsSound : Choices → AssetForm → Type 0
IsSound choices form =
    (items : List Item) × (shown_items choices form ≡ some items)
    × All (λ item. IsFlagged form.fields item) items

taken_over-IsSound :
    (choices : Choices) (asset : Fields) (p : Text) (form : AssetForm)
    → is_protocol p ≡ true
    → IsSound choices (taken_over (loaded asset) p form)
taken_over-IsSound choices asset p form h =
    let (items, shown, good) =
      shown_items-Passes strays_not choices (taken_over (loaded asset) p form)
        (strays_not-Passes choices) (protocol_mapping-HasOptions p h) in
    (
      items,
      shown,
      All-imp _ _ items (item_IsFlagged asset) (All-of_none is_stray items (ground (arith, good))),
    )

-- Loading a record of one of the five protocols into a form whose accounts have options, or which
-- shows a cluster, throws exactly if the record is of a cluster and the form shows another
-- protocol; otherwise the dialogue of the asset can be drawn, and every item that it shows as a
-- switch has a flag as its value.
pub get_item-switches :
    (choices : Choices) (asset : Fields) (p : Text) (form : AssetForm)
    → text_of (value_of (codes "protocol") (loaded asset)) ≡ some p
    → is_protocol p ≡ true
    → HasOptions form
    → ((get_item (some asset) form ≡ none) ↔ (goes_over p form ≡ false))
      × ((form' : AssetForm) → get_item (some asset) form ≡ some form' → IsSound choices form')
get_item-switches choices asset p form e h r = (
  rw (get_item-goes_over asset p form e h r) (none_iff (goes_over p form) _),
  λ form' same.
      get_item-reaches (IsSound choices) asset p form form' e h r same
        (taken_over-IsSound choices asset p form h),
)

abbrev pub closed_as : Text → AssetForm → AssetForm
closed_as protocol form = hide (record form { protocol = some protocol })

abbrev pub shows : Text → Choices → AssetForm → Bool
shows name choices form = any (text_eq name) (names (items_of (advanced_panels choices form)))

abbrev names_in : List Panel → List Text
names_in panels = names (items_of panels)

module _ (choices : Choices) where
  rdp_panels-shows :
      (b : Bool) → any (text_eq (codes "drive-path")) (names_in (rdp_panels choices b)) ≡ b
  unfolding rdp_panels drive_items
  rdp_panels-shows true = refl
  rdp_panels-shows false = refl

ssh_panels-shows :
    (b : Bool) → any (text_eq (codes "socks-proxy-host")) (names_in (ssh_panels b)) ≡ b
unfolding ssh_panels
ssh_panels-shows true = refl
ssh_panels-shows false = refl

kubernetes_panels-shows :
    (b : Bool) → any (text_eq (codes "client-cert")) (names_in (kubernetes_panels b)) ≡ b
unfolding kubernetes_panels
kubernetes_panels-shows true = refl
kubernetes_panels-shows false = refl

-- When the dialogue of an asset closes, the switches of the drive, of the proxy and of SSL are
-- given false, for a desktop, a terminal and a cluster, but the items that depend on them stay
-- shown exactly if they were.
pub hide-advanced_panels :
    (choices : Choices) (form : AssetForm)
    → ((value_of (codes "enable-drive") (closed_as (codes "rdp") form).fields ≡ some (flag false))
        × (shows (codes "drive-path") choices (closed_as (codes "rdp") form) ≡ form.enable_drive))
      × (((value_of (codes "socks-proxy-enable") (closed_as (codes "ssh") form).fields
              ≡ some (flag false))
            × (shows (codes "socks-proxy-host") choices (closed_as (codes "ssh") form)
                ≡ form.socks_proxy_enable))
          × ((value_of (codes "use-ssl") (closed_as (codes "kubernetes") form).fields
                ≡ some (flag false))
              × (shows (codes "client-cert") choices (closed_as (codes "kubernetes") form)
                  ≡ form.use_ssl)))
unfolding hide advanced_panels rdp_panels ssh_panels kubernetes_panels drive_items
hide-advanced_panels choices form = (
  (simp value_of-assign, rdp_panels-shows choices form.enable_drive),
  (
    (simp value_of-assign, ssh_panels-shows form.socks_proxy_enable),
    (simp value_of-assign, kubernetes_panels-shows form.use_ssl),
  ),
)
