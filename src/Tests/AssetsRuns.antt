-- ===== src/Tests/AssetsRuns.antt =====
-- An asset (web/src/components/asset/AssetModal.js) and tests of three (Asset.js there).
use next_terminal.Base.{
  ℕ, ◌≡◌, refl, Bool, true, false, none, some, List, [], ◌∷◌, if◌then◌else◌, get_elem?,
}
use next_terminal.Base.Text.{Text, codes}
use next_terminal.Request.Verbs.{Sent, Answer, answered}
use next_terminal.Assets.Fields.{text, Fields, value_of}
use next_terminal.Assets.Form.{loaded}
use next_terminal.Assets.Checks.{Row, ended, conn_test_in_batch, end_all}
use next_terminal.Assets.Testing.{changed, chosen, end_all-conn_test_in_batch}
use next_terminal.Base.{List, ◌↔◌, inr}
use next_terminal.Assets.Form.{
  AssetForm, mount, get_item, handle_protocol_change, read_flag, read_tags, undash_value,
  undash_all, protocol_mapping,
}
use next_terminal.Assets.Fields.{flag, assign}
use next_terminal.Assets.Basic.{Choices}
use next_terminal.Assets.Showing.{shown_items}
use next_terminal.Assets.Rendering.{goes_over, mounted, protocol_changed, Reach-shown_items}
use next_terminal.Assets.Switches.{
  IsSound, closed_as, shows, get_item-switches, hide-advanced_panels,
}
use next_terminal.Views.Items.{Item, names, distinct, plain, text_input}

abbrev asset : Fields
asset =
    (codes "id", text (codes "a1"))
    ∷ (codes "tags", text (codes "dev,-,web"))
    ∷ (codes "use-ssl", text (codes "true"))
    ∷ []

abbrev letting {ℓ} : {P : Type ℓ} → Sent P → Answer Text
letting sent = answered none (some (record { code = some 1; message = none; data' = [] }))

abbrev of_name : Item
of_name = plain "name" "" text_input

abbrev row : Text → Row
row id = record { id = id; active = false; active_message = []; testing = false }

abbrev rows : List Row
rows = row (codes "a") ∷ row (codes "b") ∷ row (codes "c") ∷ []

abbrev selected : List Text
selected = codes "c" ∷ codes "a" ∷ []

abbrev answer : ℕ → Bool × Text
answer i = (true, codes "ok")

end_all-conn_test_in_batch_example :
    get_elem? (end_all answer (2 ∷ 0 ∷ []) (conn_test_in_batch selected rows).0) 2 ≡ (
      if chosen selected (get_elem? rows 2)
      then changed (ended (answer 2)) (get_elem? rows 2)
      else get_elem? rows 2)
end_all-conn_test_in_batch_example =
    end_all-conn_test_in_batch selected rows answer (2 ∷ 0 ∷ []) 2 refl

abbrev choices : Choices
choices = record {
  storages = (codes "s1", codes "disk") ∷ [];
  access_gateways = [];
  tags = codes "dev" ∷ codes "-" ∷ [];
  credentials = (codes "c1", codes "root") ∷ [];
}

Reach-shown_items_example :
    (items : List Item) × (shown_items choices (handle_protocol_change (codes "ssh") mount)
      ≡ some items)
    × (distinct (names items) ≡ true)
Reach-shown_items_example =
    Reach-shown_items {form = handle_protocol_change (codes "ssh") mount} choices
      (protocol_changed (codes "ssh") {form = mount} refl mounted)

abbrev desktop : Fields
desktop = (codes "protocol", text (codes "rdp")) ∷ (codes "enable-drive", text (codes "true")) ∷ []

get_item-switches_example :
    ((get_item (some desktop) mount ≡ none) ↔ (goes_over (codes "rdp") mount ≡ false))
    × ((form : AssetForm) → get_item (some desktop) mount ≡ some form → IsSound choices form)
unfolding loaded read_tags read_flag undash_all undash_value value_of assign mount protocol_mapping
get_item-switches_example =
    get_item-switches choices desktop (codes "rdp") mount refl refl (inr (_, refl))

abbrev with_drive : AssetForm
with_drive = record mount { enable_drive = true }

hide-advanced_panels_example :
    ((value_of (codes "enable-drive") (closed_as (codes "rdp") with_drive).fields
        ≡ some (flag false))
      × (shows (codes "drive-path") choices (closed_as (codes "rdp") with_drive)
          ≡ with_drive.enable_drive))
    × (((value_of (codes "socks-proxy-enable") (closed_as (codes "ssh") with_drive).fields
            ≡ some (flag false))
          × (shows (codes "socks-proxy-host") choices (closed_as (codes "ssh") with_drive)
              ≡ with_drive.socks_proxy_enable))
        × ((value_of (codes "use-ssl") (closed_as (codes "kubernetes") with_drive).fields
              ≡ some (flag false))
            × (shows (codes "client-cert") choices (closed_as (codes "kubernetes") with_drive)
                ≡ with_drive.use_ssl)))
hide-advanced_panels_example = hide-advanced_panels choices with_drive
