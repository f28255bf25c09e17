-- ===== src/Assets/Tasks.antt =====
-- The import of assets and the change of an asset's owner (web/src/components/asset/Asset.js and
-- ChangeOwner.js there).
use next_terminal.Base.{
  ℕ, suc, Bool, true, false, Option, some, List, [], ◌∷◌, ◌++◌, if◌then◌else◌, ◌==◌,
}
use next_terminal.Base.Text.{Text}
use next_terminal.Request.Verbs.{Answer, Sent}
use next_terminal.Request.Api.{Async, returns, throws, waits}
use next_terminal.Request.Endpoints.{Imported, done, refused, import_asset, change_asset_owner}

-- What is shown of an import: its counts of successes and errors, or the server's message.
pub data Notice : Type 0 where
  import_failed : Option Text → Notice
  import_succeeded : ℕ → Notice
  import_finished : (successes errors : ℕ) → Notice

-- `selected_row` is the id of the row whose owner is changed.
pub record Tasks : Type 0 where
  pub notices : List Notice
  pub reloads : ℕ
  pub selected_row : Option Text
  pub change_owner_visible : Bool
  pub confirm_loading : Bool

unfoldable pub handle_change_owner : Text → Tasks → Tasks
handle_change_owner id tasks = record tasks { selected_row = some id; change_owner_visible = true }

unfoldable pub cancel_change_owner : Tasks → Tasks
cancel_change_owner tasks = record tasks { change_owner_visible = false }

abbrev notified : Notice → Tasks → Tasks
notified notice tasks = record tasks { notices = tasks.notices ++ notice ∷ [] }

abbrev reloaded : Tasks → Tasks
reloaded tasks = record tasks { reloads = suc tasks.reloads }

-- `counts` reads `successCount` and `errorCount` of the answer.
unfoldable pub asset_imported {ℓ} :
    {A : Type ℓ} → (counts : A → ℕ × ℕ) → Async (Imported A) → Tasks → Tasks
asset_imported counts waits tasks = tasks
asset_imported counts (throws f) tasks = tasks
asset_imported counts (returns (refused said)) tasks = notified (import_failed said) tasks
asset_imported counts (returns (done a)) tasks =
    let (successes, errors) = counts a in
    reloaded (
      notified
        (if errors == 0 then import_succeeded successes else import_finished successes errors)
        tasks)

-- The dialogue's button turns until the page's `handleOk` has returned.
unfoldable pub owner_changed : Async Bool → Tasks → Tasks
owner_changed waits tasks = tasks
owner_changed (throws f) tasks = tasks
owner_changed (returns success) tasks =
    let freed = record tasks { confirm_loading = false } in
    if success then reloaded (record freed { change_owner_visible = false }) else freed

module _ {ℓ κ} {P : Type ℓ} {A : Type κ} (axios : Sent P → Answer A) (token : Text) where
  unfoldable pub handle_import_asset : (counts : A → ℕ × ℕ) → P → Tasks → Tasks
  unfolding asset_imported
  handle_import_asset counts form_data tasks =
      asset_imported counts (import_asset axios token form_data) tasks

  -- `selectedRow?.id`, which stands where the dialogue does
  unfoldable pub change_owner_ok : (id owner : Text) → Tasks → Tasks
  unfolding owner_changed
  change_owner_ok id owner tasks =
      owner_changed (change_asset_owner axios token id owner)
        (record tasks { confirm_loading = true })
