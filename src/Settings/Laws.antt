-- ===== src/Settings/Laws.antt =====
-- What the settings keep of the server's properties, and when their buttons turn.
use next_terminal.Base.{
  ◌≡◌, refl, ap, Bool, true, false, Option, none, some, List, [], ◌∷◌, if◌then◌else◌, Bool-cases,
  inl, inr,
}
use next_terminal.Base.Text.{Text, codes, text_eq, text_eq_iff}
use next_terminal.Request.Verbs.{Answer, Promise, resolved, rejected, pending, Sent, post}
use next_terminal.Assets.Fields.{Value, text, flag, value_of}
use next_terminal.Assets.Form.{undash}
use next_terminal.Settings.Properties.{bool, is_switch, read_properties}
use next_terminal.Settings.Page.{Page, ldap_user_sync, handle_import, synced, imported}

-- `properties[key]` as the server sent it.
abbrev pub sent_as : Text → List (Text × Text) → Option Text
sent_as key [] = none
sent_as key ((k, v) ∷ properties) = if text_eq k key then some v else sent_as key properties

abbrev pub as_read : Bool → Option Text → Option Value
as_read switch none = none
as_read switch (some t) = some (if switch then flag (bool (undash t)) else text (undash t))

-- The settings hold a property of the server exactly if it was sent: as a switch if its key begins
-- with "enable" or "disable", and as the text otherwise, where a dash stands for none.
pub value_of-read_properties :
    (key : Text) (properties : List (Text × Text))
    → value_of key (read_properties properties) ≡ as_read (is_switch key) (sent_as key properties)
unfolding read_properties value_of
value_of-read_properties key [] = refl
value_of-read_properties key ((k, v) ∷ properties) = elim (Bool-cases (text_eq k key)) [
  | inl same ↦ rw same (
      ap (λ t. some (if is_switch t then flag (bool (undash v)) else text (undash v)))
        ((text_eq_iff k key).0 same))
  | inr other ↦ rw other (value_of-read_properties key properties)
]

abbrev pub is_pending {ℓ} : {A : Type ℓ} → Promise A → Bool
is_pending pending = true
is_pending _ = false

module _ {ℓ} {A : Type ℓ} where
  synced_loading :
      (p : Promise A) (page : Page A)
      → page.ldap_user_sync_loading ≡ true
      → (synced p page).ldap_user_sync_loading ≡ is_pending p
  unfolding synced
  synced_loading (resolved (some b)) page e = refl
  synced_loading (resolved none) page e = refl
  synced_loading (rejected f) page e = refl
  synced_loading pending page e = e

  imported_loading :
      (p : Promise A) (page : Page A)
      → page.import_btn_loading ≡ true
      → (imported p page).import_btn_loading ≡ is_pending p
  unfolding imported
  imported_loading (resolved (some b)) page e = refl
  imported_loading (resolved none) page e = refl
  imported_loading (rejected f) page e = refl
  imported_loading pending page e = e

  -- With a file chosen, the buttons of the synchronisation and of the import show their progress in
  -- the end exactly if their request stays pending.
  pub ldap_user_sync-loading {κ} :
      {P : Type κ} (axios : Sent P → Answer A) (token : Text) (backup : P) (page : Page A)
      → page.file_input ≡ true
      → ((ldap_user_sync axios token page).ldap_user_sync_loading
          ≡ is_pending (post axios token (codes "/properties/ldap-user-sync") none []).1)
        × ((handle_import axios token backup page).import_btn_loading
            ≡ is_pending (post axios token (codes "/backup/import") (some backup) []).1)
  unfolding ldap_user_sync handle_import
  ldap_user_sync-loading axios token backup page e = (
    synced_loading (post axios token (codes "/properties/ldap-user-sync") none []).1 _ refl,
    rw e (imported_loading (post axios token (codes "/backup/import") (some backup) []).1 _ refl),
  )
