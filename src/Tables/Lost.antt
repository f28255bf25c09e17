-- ===== src/Tables/Lost.antt =====
-- The fields of the search forms that the requests of the pages leave out (the `columns` and `request`
-- of the pages in web/src/components).
use next_terminal.Base.{◌≡◌, refl, Option, List, [], ◌∷◌, All}
use next_terminal.Base.Text.{Text, codes}
use next_terminal.Request.Verbs.{Answer, Sent}
use next_terminal.Request.Api.{Async}
use next_terminal.Tables.Paging.{Params, Sort, Query, Paging, Shown}
use next_terminal.Tables.Requests.{
  command_request, security_request, my_command_request, batch_command_request,
  online_session_request, login_policy_user_request, login_policy_bind_request, user_asset_request,
  asset_user_request, asset_user_group_request,
}
use next_terminal.Tables.Columns.Records.{command_columns, my_command_columns}
use next_terminal.Tables.Columns.Users.{
  user_asset_columns, asset_user_columns, asset_user_group_columns, security_columns,
  login_policy_user_columns, login_policy_bind_columns,
}
use next_terminal.Tables.Columns.Machines.{batch_command_columns, online_session_columns}
use next_terminal.Views.Columns.{Column}
use next_terminal.Tables.Searches.{typed, only}

-- Of the fields of the search form, a request depends on those of these names at most.
abbrev pub Loses {κ} :
    {I : Type κ}
    → List Text
    → List Column
    → (Params → Async (Shown I))
    → (Text → Option Text)
    → Params
    → Type κ
Loses kept columns request values params =
    request (typed columns values params) ≡ request (typed columns (only kept values) params)

-- A table that loses fields: the names of those that it keeps, its columns and its request.
pub record Losing {κ} (I : Type κ) : Type κ where
  pub kept : List Text
  pub columns : List Column
  pub request : Params → Async (Shown I)

module _ {ℓ κ} {P : Type ℓ} {I : Type κ} (axios : Sent P → Answer (Paging I)) (token : Text)
    (stringify : Query → Text) where
  abbrev pub losing :
      Sort
      → (id type' : Text) → (bind_keys : List Text) → (users assets : List (Text × Text))
      → List (Losing I)
  losing sort id type' bind_keys users assets =
      record {
        kept = [];
        columns = security_columns;
        request = λ p. security_request axios token stringify p sort;
      }
      ∷ record {
        kept = [];
        columns = asset_user_columns;
        request = λ p. asset_user_request axios token stringify id p sort;
      }
      ∷ record {
        kept = [];
        columns = asset_user_group_columns;
        request = λ p. asset_user_group_request axios token stringify id p sort;
      }
      ∷ record {
        kept = [];
        columns = user_asset_columns;
        request = λ p. user_asset_request axios token stringify type' id p sort;
      }
      ∷ record {
        kept = [];
        columns = login_policy_user_columns;
        request = λ p. login_policy_user_request axios token stringify id p sort;
      }
      ∷ record {
        kept = [];
        columns = (login_policy_bind_columns bind_keys);
        request = λ p. login_policy_bind_request axios token stringify p sort;
      }
      ∷ record {
        kept = (codes "name" ∷ []);
        columns = command_columns;
        request = λ p. command_request axios token stringify p sort;
      }
      ∷ record {
        kept = (codes "name" ∷ []);
        columns = my_command_columns;
        request = λ p. my_command_request axios token stringify p sort;
      }
      ∷ record {
        kept = (codes "name" ∷ []);
        columns = batch_command_columns;
        request = λ p. batch_command_request axios token stringify p sort;
      }
      ∷ record {
        kept = (codes "protocol" ∷ []);
        columns = (online_session_columns users assets);
        request = λ p. online_session_request axios token stringify p sort;
      }
      ∷ []

  -- What the tables of the rules of access, of the users and groups of an asset, of the assets of a
  -- user, and of the users of a login policy and those to bind to one ask for does not depend on
  -- their search form; that of the commands, of the own commands and of the assets for a command
  -- depends on the name alone, and that of the sessions that are online on the protocol alone.
  pub typed-Loses :
      (values : Text → Option Text) (params : Params) (sort : Sort) (id type' : Text)
      (bind_keys : List Text) (users assets : List (Text × Text))
      → All
          (λ page. Loses page.kept page.columns page.request values params)
          (losing sort id type' bind_keys users assets)
  unfolding security_request asset_user_request asset_user_group_request user_asset_request
      login_policy_user_request login_policy_bind_request command_request my_command_request
      batch_command_request online_session_request security_columns asset_user_columns
      asset_user_group_columns user_asset_columns login_policy_user_columns
      login_policy_bind_columns command_columns my_command_columns batch_command_columns
      online_session_columns
  typed-Loses values params sort id type' bind_keys users assets =
      (refl, (refl, (refl, (refl, (refl, (refl, (refl, (refl, (refl, (refl, tt))))))))))
