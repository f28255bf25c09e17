-- ===== src/Settings/Page.antt =====
-- The handlers of the settings (web/src/components/setting/Setting.js). A handler gives the state once
-- its request has settled; a promise that stays pending leaves what was set before the `await`.
use next_terminal.Base.{Bool, true, false, Option, none, some, List, [], ◌∷◌, ◌++◌, if◌then◌else◌}
use next_terminal.Base.Text.{Text, codes, text_eq}
use next_terminal.Request.Handlers.{Body, code_is}
use next_terminal.Request.Verbs.{Answer, Promise, resolved, rejected, pending, Sent, get, post, put}
use next_terminal.Request.Api.{Async, returns}
use next_terminal.Request.Endpoints.{get_license, get_machine_id}
use next_terminal.Assets.Fields.{Fields, set_fields}
use next_terminal.Settings.Properties.{read_properties}

-- A result without a message shows an empty notice.
pub data Notice : Type 0 where
  info success error : Option Text → Notice

-- The forms that `refs` names, `none` where a tab has not been opened; `file_input` and
-- `license_input` say whether the two file inputs hold a file.
pub record Page {ℓ} (A : Type ℓ) : Type ℓ where
  pub properties : Fields
  pub forms : List (Option Fields)
  pub license : Option A
  pub machine_id : Option A
  pub import_btn_loading : Bool
  pub ldap_user_sync_loading : Bool
  pub file_input : Bool
  pub license_input : Bool
  pub notices : List Notice

abbrev filled : Fields → List (Option Fields) → List (Option Fields)
filled fields [] = []
filled fields (none ∷ forms) = none ∷ filled fields forms
filled fields (some form ∷ forms) = some (set_fields fields form) ∷ filled fields forms

-- `if (result.code === 1) message.success(…) else message.error(result.message)`
abbrev verdict {ℓ} : {A : Type ℓ} → Text → Body A → Notice
verdict done b = if code_is b.code 1 then success (some done) else error b.message

module _ {ℓ} {A : Type ℓ} where
  abbrev notify : Notice → Page A → Page A
  notify notice page = record page { notices = page.notices ++ notice ∷ [] }

  unfoldable pub changed_properties : Promise A → Page A → Page A
  changed_properties (resolved (some b)) page = notify (verdict (codes "修改成功") b) page
  changed_properties _ page = page

  unfoldable pub got_properties : (A → List (Text × Text)) → Promise A → Page A → Page A
  unfolding read_properties set_fields
  got_properties properties_of (resolved (some b)) page =
      if code_is b.code 1
      then record page {
        properties = read_properties (properties_of b.data');
        forms = filled (read_properties (properties_of b.data')) page.forms;
      }
      else notify (error b.message) page
  got_properties properties_of _ page = page

  -- `if (data)`, by a test of what the server sent
  unfoldable pub got_license : (truthy : A → Bool) → Async (Option A) → Page A → Page A
  got_license truthy (returns (some a)) page =
      if truthy a then record page { license = some a } else page
  got_license truthy _ page = page

  unfoldable pub got_machine_id : Async (Option A) → Page A → Page A
  got_machine_id (returns a) page = record page { machine_id = a }
  got_machine_id _ page = page

  -- `finally`
  abbrev import_done : Page A → Page A
  import_done page = record page { import_btn_loading = false; file_input = false }

  unfoldable pub imported : Promise A → Page A → Page A
  imported (resolved (some b)) page = import_done (notify (verdict (codes "恢复成功") b) page)
  imported (resolved none) page = import_done page
  imported (rejected f) page = import_done page
  imported pending page = page

  abbrev sync_done : Page A → Page A
  sync_done page = record page { ldap_user_sync_loading = false }

  unfoldable pub synced : Promise A → Page A → Page A
  synced (resolved (some b)) page = sync_done (notify (verdict (codes "同步成功。") b) page)
  synced (resolved none) page = sync_done page
  synced (rejected f) page = sync_done page
  synced pending page = page

  module _ {κ} {P : Type κ} (axios : Sent P → Answer A) (token : Text) where
    unfoldable pub change_properties : P → Page A → Page A
    unfolding changed_properties
    change_properties values page =
        changed_properties (put axios token (codes "/properties") (some values)).1 page

    unfoldable pub get_properties : (A → List (Text × Text)) → Page A → Page A
    unfolding got_properties
    get_properties properties_of page =
        got_properties properties_of (get axios token (codes "/properties")).1 page

    unfoldable pub show_license : (truthy : A → Bool) → Page A → Page A
    unfolding got_license
    show_license truthy page = got_license truthy (get_license axios token) page

    unfoldable pub show_machine_id : Page A → Page A
    unfolding got_machine_id
    show_machine_id page = got_machine_id (get_machine_id axios token) page

    unfoldable pub handle_on_tab_change :
        (A → List (Text × Text)) → (truthy : A → Bool) → Text → Page A → Page A
    unfolding get_properties show_license show_machine_id
    handle_on_tab_change properties_of truthy key page =
        if text_eq key (codes "license")
        then show_license truthy (show_machine_id page)
        else get_properties properties_of page

    -- `handleImport`, once the file has been read.
    unfoldable pub handle_import : P → Page A → Page A
    unfolding imported
    handle_import backup page =
        if page.file_input
        then imported (post axios token (codes "/backup/import") (some backup) []).1
            (record page { import_btn_loading = true })
        else page

    unfoldable pub ldap_user_sync : Page A → Page A
    unfolding synced
    ldap_user_sync page =
        synced (post axios token (codes "/properties/ldap-user-sync") none []).1
          (notify (info (some (codes "同步中..."))) (record page { ldap_user_sync_loading = true }))

    -- What the answer to a licence leads to.
    unfoldable pub license_imported : (truthy : A → Bool) → Promise A → Page A → Page A
    unfolding show_license
    license_imported truthy (resolved (some b)) page =
        if code_is b.code 1 then show_license truthy page else notify (error b.message) page
    license_imported truthy _ page = page

    unfoldable pub handle_import_license : (truthy : A → Bool) → P → Page A → Page A
    unfolding license_imported
    handle_import_license truthy license page =
        if page.license_input
        then license_imported truthy (post axios token (codes "/license") (some license) []).1 page
        else page
