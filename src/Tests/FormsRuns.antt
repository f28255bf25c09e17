-- ===== src/Tests/FormsRuns.antt =====
-- The menus of a role, the limit of a storage and a credential, at concrete values.
use next_terminal.Base.{◌≡◌, ◌↔◌, refl, arith, true, ◌&&◌, none, some, [], ◌∷◌}
use next_terminal.Base.Text.{Text, codes}
use next_terminal.Request.Verbs.{Sent, Answer, answered}
use next_terminal.Request.Api.{update_by_id}
use next_terminal.Tables.Dialogue.{closed_dialogue, submit}
use next_terminal.Tables.Saves.{credential_ok}
use next_terminal.Assets.Fields.{text, Fields, value_of, set_fields}
use next_terminal.Assets.Form.{id_of}
use next_terminal.Forms.Storage.{tera, limit_of, place, times_1024, is_kept, limit_of_iff}
use next_terminal.Forms.Menus.{Forest, bare, tree, on_check, role_menus}
use next_terminal.Forms.Role.{holds, in_forest, role_menus-on_check}
use next_terminal.Forms.Opening.{Modal}
use next_terminal.Forms.Renewal.{renewed, reopened, credential_ok-reopened}
use next_terminal.Base.{not}
use next_terminal.Assets.Fields.{text_of}
use next_terminal.Assets.Form.{is}
use next_terminal.Forms.Items.{credential_items, access_gateway_items}
use next_terminal.Forms.Kinds.{credential_anew, gateway_anew, asks_key, credential_anew-asks_key}

limit_of_iff_example : (limit_of tera 1 ≡ times_1024 (place tera) 1) ↔ (is_kept tera ≡ true)
limit_of_iff_example = limit_of_iff tera 1 (ground arith)

abbrev menu : Forest
menu =
    tree (codes "user") (tree (codes "user-add") bare (tree (codes "user-del") bare bare))
      (tree (codes "role") bare bare)

role_menus-on_check_example :
    holds (codes "user") (role_menus (on_check menu (codes "user-add" ∷ codes "user" ∷ [])))
    ≡ holds (codes "user") (codes "user-add" ∷ codes "user" ∷ []) && in_forest (codes "user") menu
role_menus-on_check_example =
    role_menus-on_check (codes "user") menu (codes "user-add" ∷ codes "user" ∷ [])

abbrev letting : Sent Fields → Answer Text
letting sent = answered none (some (record { code = some 1; message = none; data' = [] }))

abbrev credential : Fields
credential = (codes "id", text (codes "c1")) ∷ (codes "name", text (codes "root")) ∷ []

abbrev modal : Modal
modal = record { fields = []; kind = none }

credential_ok-reopened_example :
    credential_ok letting
      (codes "t")
      id_of
      (reopened (codes "c1") closed_dialogue credential modal).fields
      (renewed (codes "c1") closed_dialogue)
    ≡ submit
        (update_by_id letting
          (codes "t")
          (codes "credentials")
          (codes "c1")
          (reopened (codes "c1") closed_dialogue credential modal).fields)
        (renewed (codes "c1") closed_dialogue)
unfolding value_of set_fields
credential_ok-reopened_example =
    credential_ok-reopened letting (codes "t") (codes "c1") closed_dialogue credential modal refl
      refl

abbrev key : Fields
key =
    (codes "type", text (codes "private-key"))
    ∷ (codes "accountType", text (codes "private-key"))
    ∷ []

credential_anew-asks_key_example :
    ((value_of (codes "type") (credential_anew (codes "c1") key modal).fields
        ≡ some (text (codes "custom")))
      × (asks_key (credential_items [] (credential_anew (codes "c1") key modal).kind)
          ≡ is (text_of (value_of (codes "type") key)) (codes "private-key")))
    × ((value_of (codes "accountType") (gateway_anew (codes "c1") key modal).fields
          ≡ some (text (codes "password")))
        × (asks_key (access_gateway_items (gateway_anew (codes "c1") key modal).kind)
            ≡ not (is (text_of (value_of (codes "accountType") key)) (codes "password"))))
credential_anew-asks_key_example = credential_anew-asks_key [] (codes "c1") key modal refl
