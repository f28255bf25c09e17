-- ===== src/Tests/SettingsRuns.antt =====
-- Settings (web/src/components/setting/Setting.js) on a server that fails.
use next_terminal.Base.{◌≡◌, refl, true, false, none, some, List, [], ◌∷◌}
use next_terminal.Base.Text.{Text, codes}
use next_terminal.Request.Verbs.{Sent, Answer, answered, post}
use next_terminal.Settings.Page.{Page, ldap_user_sync, handle_import}
use next_terminal.Settings.Laws.{is_pending, ldap_user_sync-loading}
use next_terminal.Base.{All}
use next_terminal.Settings.Tabs.{all_items}
use next_terminal.Settings.Shown.{IsFitting, all_items-read_properties}

abbrev properties : List (Text × Text)
properties = (codes "enable-drive", codes "TRUE") ∷ (codes "swap-red-blue", codes "true") ∷ []

abbrev refusing : Sent Text → Answer Text
refusing sent =
    answered none (some (record { code = some 0; message = some (codes "no"); data' = [] }))

abbrev page : Page Text
page = record {
  properties = [];
  forms = [];
  license = none;
  machine_id = none;
  import_btn_loading = false;
  ldap_user_sync_loading = false;
  file_input = true;
  license_input = false;
  notices = [];
}

ldap_user_sync-loading_example :
    ((ldap_user_sync refusing (codes "t") page).ldap_user_sync_loading
      ≡ is_pending (post refusing (codes "t") (codes "/properties/ldap-user-sync") none []).1)
    × ((handle_import refusing (codes "t") (codes "{}") page).import_btn_loading
        ≡ is_pending (post refusing (codes "t") (codes "/backup/import") (some (codes "{}")) []).1)
ldap_user_sync-loading_example = ldap_user_sync-loading refusing (codes "t") (codes "{}") page refl

all_items-read_properties_example : All (λ item. IsFitting properties item) (all_items [])
all_items-read_properties_example = all_items-read_properties properties []
