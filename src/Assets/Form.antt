-- ===== src/Assets/Form.antt =====
-- The form of an asset (web/src/components/asset/AssetModal.js): what it makes of the server's
-- record, of a change of the protocol or of the kind of account, and what it hands over.
use next_terminal.Base.{
  ℕ, suc, Bool, true, false, ◌||◌, Option, none, some, List, [], ◌∷◌, any, if◌then◌else◌,
}
use next_terminal.Base.Text.{Text, codes, text_eq, has_text, split, join}
use next_terminal.Tables.Paging.{comma}
use next_terminal.Assets.Fields.{
  Value, text, number, flag, texts, Fields, value_of, assign, remove, text_of, is_true,
}

-- The values of `protocolMapping`; a protocol that is not in it has none.
unfoldable pub protocol_mapping : Text → Option (List Text)
protocol_mapping protocol =
    if text_eq protocol (codes "ssh")
    then some (codes "custom" ∷ codes "private-key" ∷ codes "credential" ∷ [])
    else if text_eq protocol (codes "rdp")
    then some (codes "custom" ∷ codes "credential" ∷ [])
    else if text_eq protocol (codes "vnc")
    then some (codes "custom" ∷ codes "credential" ∷ [])
    else if text_eq protocol (codes "telnet")
    then some (codes "custom" ∷ codes "credential" ∷ [])
    else none

-- `requests` counts the calls of `getCredentials`.
pub record AssetForm : Type 0 where
  pub account_type : Option Text
  pub protocol : Option Text
  pub protocol_options : Option (List Text)
  pub use_ssl : Bool
  pub enable_drive : Bool
  pub socks_proxy_enable : Bool
  pub requests : ℕ
  pub fields : Fields

unfoldable pub mount : AssetForm
unfolding protocol_mapping
mount = record {
  account_type = some (codes "custom");
  protocol = some (codes "rdp");
  protocol_options = protocol_mapping (codes "rdp");
  use_ssl = false;
  enable_drive = false;
  socks_proxy_enable = false;
  requests = 0;
  fields = [];
}

-- `asset[key] = asset[key] === 'true'`
unfoldable pub read_flag : Text → Fields → Fields
read_flag key fields = assign key (flag (is_true (value_of key fields))) fields

-- A text "-" stands for none.
abbrev pub undash : Text → Text
undash t = if text_eq t (codes "-") then [] else t

unfoldable pub undash_value : Value → Value
undash_value (text t) = text (undash t)
undash_value (number n) = number n
undash_value (flag b) = flag b
undash_value (texts ts) = texts ts

unfoldable pub undash_all : Fields → Fields
unfolding undash_value
undash_all [] = []
undash_all ((k, v) ∷ fields) = (k, undash_value v) ∷ undash_all fields

abbrev pub pieces : Option Text → List Text
pieces none = []
pieces (some tags) = if has_text tags then split comma tags else []

unfoldable pub read_tags : Fields → Fields
read_tags fields =
    assign (codes "tags") (texts (pieces (text_of (value_of (codes "tags") fields)))) fields

-- What `getItem` makes of the record.
unfoldable pub loaded : Fields → Fields
loaded asset = read_tags (
    undash_all (
      read_flag (codes "force-lossless") (
        read_flag (codes "socks-proxy-enable") (
          read_flag (codes "enable-drive")
            (read_flag (codes "ignore-cert") (read_flag (codes "use-ssl") asset))))))

abbrev pub is_flag : Option Value → Bool
is_flag (some (flag b)) = b
is_flag _ = false

abbrev pub is : Option Text → Text → Bool
is none t = false
is (some s) t = text_eq s t

-- `protocolMapping[protocol]`
abbrev pub options_for : Option Text → Option (List Text)
options_for none = none
options_for (some p) = protocol_mapping p

-- A rendering maps over the options, but for the protocol without accounts, and throws without them.
abbrev pub has_options : Option (List Text) → Bool
has_options none = false
has_options (some options) = true

unfoldable pub is_drawn : AssetForm → Bool
is_drawn form = is form.protocol (codes "kubernetes") || has_options form.protocol_options

-- Behind an `await` each setter renders at once (`ReactDOM.render` of web/src/index.js); `none` is an
-- exception of the rendering.
unfoldable pub then_render : (AssetForm → AssetForm) → Option AssetForm → Option AssetForm
unfolding is_drawn
then_render set none = none
then_render set (some form) = if is_drawn (set form) then some (set form) else none

abbrev then_fields : Fields → Option AssetForm → Option AssetForm
then_fields asset none = none
then_fields asset (some form) = some (record form { fields = asset })

abbrev set_account_type : Option Text → AssetForm → AssetForm
set_account_type account_type form = record form { account_type = account_type }

abbrev count_request : Option Text → AssetForm → AssetForm
count_request account_type form = record form {
  requests = if is account_type (codes "credential") then suc form.requests else form.requests;
}

abbrev counted : Option Text → Option AssetForm → Option AssetForm
counted account_type none = none
counted account_type (some form) = some (count_request account_type form)

-- The setters of `getItem`, one after the other, and then the values of the form.
unfoldable pub set_states :
    (account_type protocol : Option Text) (ssl drive proxy : Bool)
    → Fields
    → AssetForm
    → Option AssetForm
unfolding then_render
set_states account_type protocol ssl drive proxy asset form = then_fields asset (
    then_render (λ f. record f { socks_proxy_enable = proxy })
      (then_render (λ f. record f { enable_drive = drive })
        (then_render (λ f. record f { use_ssl = ssl })
          (then_render (λ f. record f { protocol = protocol })
            (then_render (λ f. record f { protocol_options = options_for protocol })
              (counted account_type (then_render (set_account_type account_type) (some form))))))))

unfoldable pub set_item : Fields → AssetForm → Option AssetForm
unfolding set_states
set_item asset form =
    set_states (text_of (value_of (codes "accountType") asset))
      (text_of (value_of (codes "protocol") asset)) (is_flag (value_of (codes "use-ssl") asset))
      (is_flag (value_of (codes "enable-drive") asset))
      (is_flag (value_of (codes "socks-proxy-enable") asset)) asset form

-- `getItem`, on what the server answers.
unfoldable pub get_item : Option Fields → AssetForm → Option AssetForm
unfolding set_item
get_item none form = some form
get_item (some asset) form = set_item (loaded asset) form

unfoldable pub handle_account_type_change : Text → AssetForm → AssetForm
handle_account_type_change v form = record form {
  account_type = some v;
  requests = if text_eq v (codes "credential") then suc form.requests else form.requests;
}

-- The branch of `handleProtocolChange` for a protocol with accounts.
abbrev with_accounts : Text → AssetForm → AssetForm
with_accounts p form = handle_account_type_change (codes "custom") (record form {
  protocol_options = protocol_mapping p;
  fields = assign (codes "accountType") (text (codes "custom")) form.fields;
})

unfoldable pub port_of : Text → ℕ
port_of p =
    if text_eq p (codes "ssh")
    then 22
    else if text_eq p (codes "rdp")
    then 3389
    else if text_eq p (codes "vnc")
    then 5900
    else if text_eq p (codes "telnet")
    then 23
    else if text_eq p (codes "kubernetes")
    then 6443
    else 65535

abbrev pub has_accounts : Text → Bool
has_accounts p =
    if text_eq p (codes "ssh")
    then true
    else if text_eq p (codes "rdp")
    then true
    else if text_eq p (codes "vnc")
    then true
    else text_eq p (codes "telnet")

unfoldable pub handle_protocol_change : Text → AssetForm → AssetForm
handle_protocol_change p form =
    let chosen = record form { protocol = some p } in
    let form' = if has_accounts p then with_accounts p chosen else chosen in
    record form' { fields = assign (codes "port") (number (port_of p)) form'.fields }

abbrev with_default : Text → Option Text → Fields → Fields
with_default key none fields = fields
with_default key (some t) fields = assign key (text t) fields

-- What the form is given while it is not shown.
unfoldable pub hide : AssetForm → AssetForm
hide form = record form {
  fields = assign (codes "use-ssl") (flag false) (
      assign (codes "ignore-cert") (flag false) (
        assign (codes "socks-proxy-enable") (flag false) (
          assign (codes "force-lossless") (flag false) (
            assign (codes "enable-drive") (flag false) (
              assign (codes "port") (number 3389) (
                with_default (codes "protocol") form.protocol
                  (with_default (codes "accountType") form.account_type form.fields)))))));
}

abbrev pub joined : Option Value → Text
joined (some (texts ts)) = join comma ts
joined _ = []

-- `validateFields`, where the form is valid: the values of the names of its items.
unfoldable pub validated : List Text → Fields → Fields
validated keys [] = []
validated keys ((k, v) ∷ fields) =
    let rest = validated keys fields in if any (text_eq k) keys then (k, v) ∷ rest else rest

-- What `onOk` makes of them and hands over.
unfoldable pub submitted : (copied : Bool) → Fields → Fields
submitted copied values =
    let values' = if copied then remove (codes "id") values else values in
    assign (codes "tags") (text (joined (value_of (codes "tags") values'))) values'

-- `values['id']`
abbrev pub id_of : Fields → Option Text
id_of values = text_of (value_of (codes "id") values)
