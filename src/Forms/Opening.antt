-- ===== src/Forms/Opening.antt =====
-- What the forms hold when their dialogues open and close (web/src/components/asset/CredentialModal.js,
-- CommandModal.js and AccessGatewayModal.js there, SecurityModal.js and LoginPolicyModal.js of
-- web/src/components/security, web/src/components/authorised/StrategyModal.js). A form forgets all of
-- its values by `resetFields`; `none` is an id that is not given, or an answer without data.
use next_terminal.Base.{Bool, true, false, Option, none, some, [], ◌∷◌, if◌then◌else◌}
use next_terminal.Base.Text.{Text, codes, has_text}
use next_terminal.Assets.Fields.{text, number, flag, Fields, value_of, assign, set_fields, text_of}

-- `kind` is the state beside the form: the type of a credential, the kind of an account.
pub record Modal : Type 0 where
  pub fields : Fields
  pub kind : Option Text

-- `if (id)`
abbrev pub given : Option Text → Bool
given none = false
given (some id) = has_text id

abbrev filled : Option Fields → Modal → Modal
filled none modal = modal
filled (some data') modal = record modal { fields = set_fields data' modal.fields }

-- The change of `visible`, with what the server answers where it is asked.
unfoldable pub credential_opened : (visible : Bool) → Option Text → Option Fields → Modal → Modal
unfolding set_fields
credential_opened false id answer modal = record modal { fields = [] }
credential_opened true id answer modal =
    if given id
    then elim answer [
      | none ↦ modal
      | some data' ↦ record {
        fields = set_fields data' modal.fields;
        kind = text_of (value_of (codes "type") data');
      }
    ]
    else record modal { fields = assign (codes "type") (text (codes "custom")) modal.fields }

unfoldable pub command_opened : (visible : Bool) → Option Text → Option Fields → Modal → Modal
unfolding set_fields
command_opened false id answer modal = record modal { fields = [] }
command_opened true id answer modal = if given id then filled answer modal else modal

unfoldable pub access_gateway_opened :
    (visible : Bool) → Option Text → Option Fields → Modal → Modal
unfolding set_fields
access_gateway_opened false id answer modal = record modal { fields = [] }
access_gateway_opened true id answer modal =
    if given id
    then elim answer [
      | none ↦ modal
      | some data' ↦ record {
        fields = set_fields data' modal.fields;
        kind = text_of (value_of (codes "accountType") data');
      }
    ]
    else record modal {
      fields =
          set_fields
            ((codes "accountType", text (codes "password")) ∷ (codes "port", number 22) ∷ [])
            modal.fields;
    }

-- The forms that are not cleared when they close: `if (visible && id) … else …`.
abbrev kept : Fields → (visible : Bool) → Option Text → Option Fields → Modal → Modal
kept defaults visible id answer modal =
    if (if visible then given id else false)
    then filled answer modal
    else record modal { fields = set_fields defaults modal.fields }

unfoldable pub security_opened : (visible : Bool) → Option Text → Option Fields → Modal → Modal
unfolding set_fields
security_opened = kept ((codes "priority", number 50) ∷ [])

unfoldable pub strategy_opened : (visible : Bool) → Option Text → Option Fields → Modal → Modal
unfolding set_fields
strategy_opened = kept (
    (codes "upload", flag false)
    ∷ (codes "download", flag false)
    ∷ (codes "edit", flag false)
    ∷ (codes "delete", flag false)
    ∷ (codes "rename", flag false)
    ∷ (codes "copy", flag false)
    ∷ (codes "paste", flag false)
    ∷ [])

unfoldable pub login_policy_opened : (visible : Bool) → Option Text → Option Fields → Modal → Modal
unfolding set_fields
login_policy_opened = kept (
    (codes "ipGroup", text (codes "0.0.0.0/0"))
    ∷ (codes "priority", number 50)
    ∷ (codes "rule", text (codes "reject"))
    ∷ (codes "enabled", flag true)
    ∷ [])

-- `onCancel`, and `onOk` by what `handleOk` returns.
unfoldable pub reset_fields : Modal → Modal
reset_fields modal = record modal { fields = [] }

unfoldable pub ok_done : Bool → Modal → Modal
unfolding reset_fields
ok_done ok modal = if ok then reset_fields modal else modal
