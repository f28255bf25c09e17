-- ===== src/Tables/Dialogue.antt =====
-- The dialogue of a page (web/src/components/asset/Credential.js, Asset.js and the others), in which
-- a record is made or changed: when it stands, for which record, and when its button turns.
use next_terminal.Base.{ℕ, suc, Bool, true, false, Option, none, some, if◌then◌else◌}
use next_terminal.Base.Text.{Text, has_text}
use next_terminal.Request.Verbs.{Answer, Sent}
use next_terminal.Request.Api.{Async, returns, throws, waits, create, update_by_id}

-- `reloads` counts the calls of `actionRef.current.reload()`.
pub record Dialogue : Type 0 where
  pub visible : Bool
  pub confirm_loading : Bool
  pub selected_row_key : Option Text
  pub copied : Bool
  pub reloads : ℕ

abbrev pub closed_dialogue : Dialogue
closed_dialogue = record {
  visible = false;
  confirm_loading = false;
  selected_row_key = none;
  copied = false;
  reloads = 0;
}

-- The buttons "new" and "edit".
unfoldable pub add : Dialogue → Dialogue
add d = record d { visible = true }

unfoldable pub edit : Text → Dialogue → Dialogue
edit id d = record d { visible = true; selected_row_key = some id }

unfoldable pub cancel : Dialogue → Dialogue
cancel d = record d { visible = false; selected_row_key = none }

-- `handleOk` up to its `await`, and from there on what saving the values ends with. Where the
-- request waits, nothing behind it runs.
unfoldable pub submit_start : Dialogue → Dialogue
submit_start d = record d { confirm_loading = true }

unfoldable pub submit_end : Async Bool → Dialogue → Dialogue
submit_end waits d = d
submit_end (throws f) d = record d { confirm_loading = false }
submit_end (returns success) d = record d {
  visible = if success then false else d.visible;
  confirm_loading = false;
  reloads = suc d.reloads;
}

unfoldable pub submit : Async Bool → Dialogue → Dialogue
unfolding submit_start submit_end
submit a d = submit_end a (submit_start d)

-- The dialogue of the assets copies too, and forgets its record at the end of `handleOk`.
unfoldable pub copy_asset : Text → Dialogue → Dialogue
copy_asset id d = record d { visible = true; selected_row_key = some id; copied = true }

unfoldable pub cancel_asset : Dialogue → Dialogue
cancel_asset d = record d { visible = false; selected_row_key = none; copied = false }

abbrev forgotten : Dialogue → Dialogue
forgotten d = record d { confirm_loading = false; selected_row_key = none; copied = false }

unfoldable pub submit_asset_end : Async Bool → Dialogue → Dialogue
submit_asset_end waits d = d
submit_asset_end (throws f) d = forgotten d
submit_asset_end (returns success) d =
    forgotten (record d { visible = if success then false else d.visible; reloads = suc d.reloads })

unfoldable pub submit_asset : Async Bool → Dialogue → Dialogue
unfolding submit_start submit_asset_end
submit_asset a d = submit_asset_end a (submit_start d)

-- What `if (values['id'])` decides: a record with an id is updated, any other is made.
unfoldable pub save_as {ℓ κ} :
    {P : Type ℓ} {A : Type κ} → (Sent P → Answer A) → Text → Text → Option Text → P → Async Bool
save_as axios token group none values = create axios token group values
save_as axios token group (some id) values =
    if has_text id
    then update_by_id axios token group id values
    else create axios token group values

unfoldable pub save {ℓ κ} :
    {P : Type ℓ} {A : Type κ}
    → (Sent P → Answer A)
    → Text
    → Text
    → (P → Option Text)
    → P
    → Async Bool
unfolding save_as
save axios token group id_of values = save_as axios token group (id_of values) values
