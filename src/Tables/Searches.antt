-- ===== src/Tables/Searches.antt =====
-- What becomes of the fields of the search forms (the `columns` and `request` of the pages in
-- web/src/components). The library hands over the value of each field of the form under the name of its
-- column.
use next_terminal.Base.{◌≡◌, refl, Option, none, some, List, [], ◌∷◌, All, any, if◌then◌else◌}
use next_terminal.Base.Text.{Text, codes, text_eq}
use next_terminal.Request.Verbs.{Answer, Sent}
use next_terminal.Request.Api.{Async}
use next_terminal.Tables.Paging.{Params, Sort, Query, Paging, Shown}
use next_terminal.Tables.Requests.{
  paged, credential_request, access_gateway_request, storage_request, login_policy_request,
  strategy_request, user_request, role_request, user_group_request, login_log_request,
}
use next_terminal.Tables.Columns.Records.{
  credential_columns, access_gateway_columns, strategy_columns, storage_columns,
}
use next_terminal.Tables.Columns.Users.{
  user_columns, user_group_columns, role_columns, login_policy_columns, login_log_columns,
}
use next_terminal.Views.Columns.{Column, searched}

-- The parameters of a table with these columns, where the form holds these values.
abbrev pub typed : List Column → (Text → Option Text) → Params → Params
typed columns values params = record params {
  search = λ name. if any (text_eq name) (searched columns) then values name else none;
}

abbrev pub only : List Text → (Text → Option Text) → Text → Option Text
only keys values name = if any (text_eq name) keys then values name else none

-- The value that a query holds for a name.
abbrev pub asked : Text → Query → Option (Option Text)
asked name [] = none
asked name ((key, value) ∷ query) = if text_eq name key then some value else asked name query

-- A table that can be searched: its columns, the records that it asks for, its request once the sort is
-- chosen.
pub record Searching {κ} (I : Type κ) : Type κ where
  pub columns : List Column
  pub group : Text
  pub request : Params → Async (Shown I)

module _ {ℓ κ} {P : Type ℓ} {I : Type κ} (axios : Sent P → Answer (Paging I)) (token : Text)
    (stringify : Query → Text) where
  -- The request asks the server for every field of the search form, with its value.
  abbrev pub Honours : (Text → Option Text) → Params → Searching I → Type κ
  Honours values params page =
      (query : Query) × (page.request (typed page.columns values params)
        ≡ paged axios token stringify page.group query)
      × All (λ name. asked name query ≡ some (values name)) (searched page.columns)

  abbrev pub searching : Sort → List (Searching I)
  searching sort =
      record {
        columns = credential_columns;
        group = codes "credentials";
        request = λ p. credential_request axios token stringify p sort;
      }
      ∷ record {
        columns = access_gateway_columns;
        group = codes "access-gateways";
        request = λ p. access_gateway_request axios token stringify p sort;
      }
      ∷ record {
        columns = storage_columns;
        group = codes "storages";
        request = λ p. storage_request axios token stringify p sort;
      }
      ∷ record {
        columns = strategy_columns;
        group = codes "strategies";
        request = λ p. strategy_request axios token stringify p sort;
      }
      ∷ record {
        columns = login_policy_columns;
        group = codes "login-policies";
        request = λ p. login_policy_request axios token stringify p sort;
      }
      ∷ record {
        columns = user_columns;
        group = codes "users";
        request = λ p. user_request axios token stringify p sort;
      }
      ∷ record {
        columns = role_columns;
        group = codes "roles";
        request = λ p. role_request axios token stringify p sort;
      }
      ∷ record {
        columns = user_group_columns;
        group = codes "user-groups";
        request = λ p. user_group_request axios token stringify p sort;
      }
      ∷ record {
        columns = login_log_columns;
        group = codes "login-logs";
        request = λ p. login_log_request axios token stringify p sort;
      }
      ∷ []

  -- The tables of credentials, gateways, storages, strategies, login policies, users, roles, groups
  -- of users and logins ask the server for every field of their search form with the value that was
  -- typed there.
  pub typed-Honours :
      (values : Text → Option Text) (params : Params) (sort : Sort)
      → All (λ page. Honours values params page) (searching sort)
  unfolding credential_request access_gateway_request storage_request strategy_request
      login_policy_request user_request role_request user_group_request login_log_request
      credential_columns access_gateway_columns storage_columns strategy_columns
      login_policy_columns user_columns role_columns user_group_columns login_log_columns
  typed-Honours values params sort = (
    (_, refl, (refl, tt)),
    (
      (_, refl, (refl, tt)),
      (
        (_, refl, (refl, tt)),
        (
          (_, refl, (refl, tt)),
          (
            (_, refl, (refl, tt)),
            (
              (_, refl, (refl, (refl, (refl, (refl, tt))))),
              (
                (_, refl, (refl, (refl, tt))),
                ((_, refl, (refl, tt)), ((_, refl, (refl, (refl, tt))), tt)),
              ),
            ),
          ),
        ),
      ),
    ),
  )
