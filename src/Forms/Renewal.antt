-- ===== src/Forms/Renewal.antt =====
-- The credential form behind its page (web/src/components/asset/Credential.js, CredentialModal.js): what
-- "new" does after a record has been edited and saved.
use next_terminal.Base.{◌≡◌, refl, ap, ◌∙◌, true, false, none, some, [], if◌then◌else◌}
use next_terminal.Base.Text.{Text, codes, has_text}
use next_terminal.Request.Verbs.{Answer, Sent}
use next_terminal.Request.Api.{returns, create, update_by_id}
use next_terminal.Tables.Dialogue.{
  Dialogue, add, edit, submit, submit_start, submit_end, save, save_as,
}
use next_terminal.Tables.Saves.{credential_ok}
use next_terminal.Assets.Fields.{text, Fields, value_of, set_fields, text_of}
use next_terminal.Assets.Form.{id_of}
use next_terminal.Forms.Opening.{Modal, credential_opened}

-- The page on which "new" has been pressed after a saved edit.
abbrev pub renewed : Text → Dialogue → Dialogue
renewed id d = add (submit (returns true) (edit id d))

-- The form then: closed by the save, and opened for the page's record, which the server answers.
abbrev pub reopened : Text → Dialogue → Fields → Modal → Modal
reopened id d data' modal =
    credential_opened true (renewed id d).selected_row_key (some data')
      (credential_opened false none none modal)

reopened_fields :
    (id : Text) (d : Dialogue) (data' : Fields) (modal : Modal)
    → has_text id ≡ true
    → (reopened id d data' modal).fields ≡ set_fields data' []
unfolding credential_opened add submit submit_start submit_end edit
reopened_fields id d data' modal full = rw full refl

credential_ok-update {κ} :
    {A : Type κ} (axios : Sent Fields → Answer A) (token id : Text) (values : Fields) (d : Dialogue)
    → id_of values ≡ some id
    → has_text id ≡ true
    → credential_ok axios token id_of values d
      ≡ submit (update_by_id axios token (codes "credentials") id values) d
unfolding credential_ok save save_as
credential_ok-update axios token id values d e full =
    ap (λ o. submit (save_as axios token (codes "credentials") o values) d) e
    ∙ ap
        (λ b.
          submit
            (if b
              then update_by_id axios token (codes "credentials") id values
              else create axios token (codes "credentials") values)
            d)
        full

-- After a credential with an id that has text was edited and saved, the button for a new one opens
-- the form on the same record, and handing over the form updates that record, if the record holds
-- its own id.
pub credential_ok-reopened {κ} :
    {A : Type κ} (axios : Sent Fields → Answer A) (token id : Text) (d : Dialogue) (data' : Fields)
    (modal : Modal)
    → has_text id ≡ true
    → value_of (codes "id") (set_fields data' []) ≡ some (text id)
    → credential_ok axios token id_of (reopened id d data' modal).fields (renewed id d)
      ≡ submit
          (update_by_id axios token (codes "credentials") id (reopened id d data' modal).fields)
          (renewed id d)
credential_ok-reopened axios token id d data' modal full e =
    credential_ok-update axios token id (reopened id d data' modal).fields (renewed id d)
      (ap id_of (reopened_fields id d data' modal full) ∙ ap text_of e) full
