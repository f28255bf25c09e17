-- ===== src/Forms/Kinds.antt =====
-- What the dialogues of a credential and of a gateway ask for, by the kind beside the form
-- (web/src/components/asset/CredentialModal.js, AccessGatewayModal.js).
use next_terminal.Base.{
  ◌≡◌, refl, Bool, true, false, not, Option, none, some, any, Bool-cases, inl, inr, List,
}
use next_terminal.Base.Text.{Text, codes, text_eq, has_text}
use next_terminal.Assets.Fields.{text, Fields, value_of, value_of-assign, text_of, set_fields}
use next_terminal.Assets.Form.{is}
use next_terminal.Views.Items.{Item, names}
use next_terminal.Forms.Opening.{Modal, credential_opened, access_gateway_opened}
use next_terminal.Forms.Items.{credential_items, access_gateway_items}

-- `handleAccountTypeChange`
unfoldable pub change_kind : Text → Modal → Modal
change_kind v modal = record modal { kind = some v }

-- A record is opened, the dialogue is closed, and it is opened for a new one.
abbrev pub credential_anew : Text → Fields → Modal → Modal
credential_anew id data' modal =
    credential_opened true none none
      (credential_opened false none none (credential_opened true (some id) (some data') modal))

abbrev pub gateway_anew : Text → Fields → Modal → Modal
gateway_anew id data' modal = access_gateway_opened true none none (
    access_gateway_opened false none none (access_gateway_opened true (some id) (some data') modal))

abbrev pub asks_key : List Item → Bool
asks_key items = any (text_eq (codes "privateKey")) (names items)

credential_items-key :
    (types : List (Text × Text)) (kind : Option Text)
    → asks_key (credential_items types kind) ≡ is kind (codes "private-key")
unfolding credential_items
credential_items-key types kind = elim (Bool-cases (is kind (codes "private-key"))) [
  | inl key ↦ rw key refl
  | inr other ↦ rw other refl
]

access_gateway_items-key :
    (kind : Option Text) → asks_key (access_gateway_items kind) ≡ not (is kind (codes "password"))
unfolding access_gateway_items
access_gateway_items-key kind = elim (Bool-cases (is kind (codes "password"))) [
  | inl key ↦ rw key refl
  | inr other ↦ rw other refl
]

-- If a record with an id that has text was opened and closed, the dialogue for a new credential, or
-- gateway, says that it has a password, but asks for a private key exactly if that record had one,
-- or, for a gateway, had anything else than a password.
pub credential_anew-asks_key :
    (types : List (Text × Text)) (id : Text) (data' : Fields) (modal : Modal)
    → has_text id ≡ true
    → ((value_of (codes "type") (credential_anew id data' modal).fields
          ≡ some (text (codes "custom")))
        × (asks_key (credential_items types (credential_anew id data' modal).kind)
            ≡ is (text_of (value_of (codes "type") data')) (codes "private-key")))
      × ((value_of (codes "accountType") (gateway_anew id data' modal).fields
            ≡ some (text (codes "password")))
          × (asks_key (access_gateway_items (gateway_anew id data' modal).kind)
              ≡ not (is (text_of (value_of (codes "accountType") data')) (codes "password"))))
unfolding credential_opened access_gateway_opened set_fields
credential_anew-asks_key types id data' modal full = rw full (
  (simp value_of-assign, credential_items-key types _),
  (simp value_of-assign, access_gateway_items-key _),
)
