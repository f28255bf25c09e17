-- ===== src/Tables/Saves.antt =====
-- The `handleOk` of each page.
use next_terminal.Base.{Option, if◌then◌else◌}
use next_terminal.Base.Text.{Text, codes, text_eq}
use next_terminal.Request.Verbs.{Answer, Sent}
use next_terminal.Tables.Dialogue.{Dialogue, submit, submit_asset, save}

module _ {ℓ κ} {P : Type ℓ} {A : Type κ} (axios : Sent P → Answer A) (token : Text)
    (id_of : P → Option Text) where
  abbrev submitted : Text → P → Dialogue → Dialogue
  submitted group values d = submit (save axios token group id_of values) d

  unfoldable pub credential_ok : P → Dialogue → Dialogue
  credential_ok values d = submitted (codes "credentials") values d

  unfoldable pub command_ok : P → Dialogue → Dialogue
  command_ok values d = submitted (codes "commands") values d

  unfoldable pub access_gateway_ok : P → Dialogue → Dialogue
  access_gateway_ok values d = submitted (codes "access-gateways") values d

  unfoldable pub storage_ok : P → Dialogue → Dialogue
  storage_ok values d = submitted (codes "storages") values d

  unfoldable pub security_ok : P → Dialogue → Dialogue
  security_ok values d = submitted (codes "securities") values d

  unfoldable pub login_policy_ok : P → Dialogue → Dialogue
  login_policy_ok values d = submitted (codes "login-policies") values d

  unfoldable pub strategy_ok : P → Dialogue → Dialogue
  strategy_ok values d = submitted (codes "strategies") values d

  unfoldable pub user_ok : P → Dialogue → Dialogue
  user_ok values d = submitted (codes "users") values d

  unfoldable pub role_ok : P → Dialogue → Dialogue
  role_ok values d = submitted (codes "roles") values d

  unfoldable pub user_group_ok : P → Dialogue → Dialogue
  user_group_ok values d = submitted (codes "user-groups") values d

  unfoldable pub my_command_ok : P → Dialogue → Dialogue
  my_command_ok values d = submitted (codes "worker/commands") values d

  unfoldable pub asset_ok : P → Dialogue → Dialogue
  asset_ok values d = submit_asset (save axios token (codes "assets") id_of values) d

  -- The values of a job that runs a script get its metadata first, `JSON.stringify({shell})`.
  unfoldable pub job_ok : (func_of : P → Text) (with_metadata : P → P) → P → Dialogue → Dialogue
  job_ok func_of with_metadata values d =
      submitted (codes "jobs")
        (if text_eq (func_of values) (codes "shell-job") then with_metadata values else values) d
