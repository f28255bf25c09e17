-- ===== src/Assets/Basic.antt =====
-- The first tab of the form of an asset (web/src/components/asset/AssetModal.js): its items, and the
-- lists that their choices are made from.
use next_terminal.Base.{Option, none, some, List, [], ◌∷◌, ◌++◌, map, if◌then◌else◌, keep, not}
use next_terminal.Base.Text.{Text, codes, text_eq}
use next_terminal.Request.Verbs.{Promise, resolved}
use next_terminal.Request.Handlers.{code_is}
use next_terminal.Settings.Properties.{pos}
use next_terminal.Assets.Form.{AssetForm, is}
use next_terminal.Views.Items.{
  Item, plain, must, option, area, own, number, select, radio, tag_select, text_input,
  password_input,
}

-- The lists that the dialogue loads: records by their id and name, and tags.
pub record Choices : Type 0 where
  pub storages : List (Text × Text)
  pub access_gateways : List (Text × Text)
  pub tags : List Text
  pub credentials : List (Text × Text)

-- The data of an answer with the code 1.
abbrev found_or {ℓ} : {A : Type ℓ} → A → Promise A → A
found_or old (resolved (some b)) = if code_is b.code 1 then b.data' else old
found_or old _ = old

-- `getStorages` and `getAccessGateways`, once their request has settled.
unfoldable pub got_storages : Promise (List (Text × Text)) → Choices → Choices
got_storages p choices = record choices { storages = found_or choices.storages p }

unfoldable pub got_access_gateways : Promise (List (Text × Text)) → Choices → Choices
got_access_gateways p choices = record choices {
  access_gateways = found_or choices.access_gateways p;
}

-- `getTags` and `getCredentials`, once their call has returned.
unfoldable pub got_tags : List Text → Choices → Choices
got_tags tags choices = record choices { tags = tags }

unfoldable pub got_credentials : List (Text × Text) → Choices → Choices
got_credentials items choices = record choices { credentials = items }

-- The text of a value in `protocolMapping`.
abbrev account_label : Text → Text
account_label value =
    if text_eq value (codes "custom")
    then codes "密码"
    else if text_eq value (codes "private-key")
    then codes "密钥"
    else codes "授权凭证"

abbrev account_options : List Text → List (Text × Text)
account_options values = map (λ value. (value, account_label value)) values

-- The items of the address stand in one of their own, which names no field.
unfoldable pub first_items : List Item
first_items =
    must (plain "name" "资产名称" text_input)
    ∷ must (
        plain "protocol" "协议" (
          radio (
            option "rdp" "RDP"
            ∷ option "ssh" "SSH"
            ∷ option "vnc" "VNC"
            ∷ option "telnet" "Telnet"
            ∷ option "kubernetes" "Kubernetes"
            ∷ [])))
    ∷ must (plain "" "主机地址" own)
    ∷ plain "ip" "" text_input
    ∷ plain "port" "" (number (pos 1) (some (pos 65535)))
    ∷ []

unfoldable pub kubernetes_items : List Item
kubernetes_items =
    plain "namespace" "命名空间" text_input
    ∷ must (plain "pod" "pod" text_input)
    ∷ plain "container" "容器" text_input
    ∷ []

-- What is asked for an account, of which at most one kind holds.
unfoldable pub account_items : Choices → Option Text → List Item
account_items choices account_type =
    if is account_type (codes "credential")
    then must (plain "credentialId" "授权凭证" (select choices.credentials)) ∷ []
    else if is account_type (codes "custom")
    then plain "username" "授权账户" text_input ∷ plain "password" "授权密码" password_input ∷ []
    else if is account_type (codes "private-key")
    then plain "username" "授权账户" text_input
      ∷ must (plain "privateKey" "私钥" area)
      ∷ plain "passphrase" "私钥密码" area
      ∷ []
    else []

abbrev pub account_item : List Text → Item
account_item options = must (plain "accountType" "账户类型" (select (account_options options)))

-- Without options of the account, `protocolOptions.map` throws.
unfoldable pub with_account : Choices → Option Text → Option (List Text) → Option (List Item)
unfolding account_items
with_account choices account_type none = none
with_account choices account_type (some options) =
    some (account_item options ∷ account_items choices account_type)

-- A tag "-" is no option.
unfoldable pub last_items : Choices → List Item
last_items choices =
    plain "accessGatewayId" "接入网关" (select choices.access_gateways)
    ∷ plain "tags" "标签" (tag_select (keep (λ tag. not (text_eq tag (codes "-"))) choices.tags))
    ∷ plain "description" "备注" area
    ∷ []

-- The items between the first and the last ones.
abbrev pub surrounded : List Item → Option (List Item) → Option (List Item)
surrounded last none = none
surrounded last (some items) = some (first_items ++ (items ++ last))

-- `basicView`
unfoldable pub basic_items : Choices → AssetForm → Option (List Item)
unfolding first_items kubernetes_items with_account last_items
basic_items choices form = surrounded (last_items choices) (
    if is form.protocol (codes "kubernetes")
    then some kubernetes_items
    else with_account choices form.account_type form.protocol_options)
