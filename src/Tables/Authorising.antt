-- ===== src/Tables/Authorising.antt =====
-- The dialogues that bind users, groups or assets (web/src/components/asset/AssetUserBind.js and
-- AssetUserGroupBind.js, web/src/components/user/user/UserAuthorised.js): what they fetch, their items and
-- their buttons. `toLowerCase` is a parameter.
use next_terminal.Base.{Bool, true, false, Option, none, some, List, [], ◌∷◌, if◌then◌else◌}
use next_terminal.Base.Text.{Text}
use next_terminal.Request.Verbs.{includes}
use next_terminal.Request.Api.{Async, returns, throws, waits}
use next_terminal.Views.Items.{Item, plain, must, select, multiple}
use next_terminal.Tables.Bindings.{Choosable, options_of}

-- What is bound already, what there is to bind and the strategies, by their ids and names; `values` is
-- what was entered.
pub record Authorising {ℓ} (V : Type ℓ) : Type ℓ where
  pub visible : Bool
  pub selected : List Text
  pub items : List (Text × Text)
  pub strategies : List (Text × Text)
  pub values : Option V

unfoldable pub fresh_authorising {ℓ} : {V : Type ℓ} → Authorising V
fresh_authorising = record {
  visible = false;
  selected = [];
  items = [];
  strategies = [];
  values = none;
}

-- `await`, and then what follows it, unless it throws or waits.
abbrev then_with {ℓ κ} : {A : Type ℓ} {D : Type κ} → Async A → (A → D → D) → D → D
then_with (returns x) go d = go x d
then_with (throws f) go d = d
then_with waits go d = d

module _ {ℓ} {V : Type ℓ} where
  -- Three requests one after the other.
  unfoldable pub fetch_data :
      Async (List Text)
      → (items strategies : Async (List (Text × Text))) → Authorising V
      → Authorising V
  fetch_data selected items strategies = then_with {D = Authorising V} selected (λ selected' d.
      then_with {D = Authorising V} items
        (λ items' e.
          then_with {D = Authorising V} strategies
            (λ strategies' f. record f { strategies = strategies' }) (record e { items = items' }))
        (record d { selected = selected' }))

  -- The effect of a change of `visible`.
  unfoldable pub visible_changed :
      Async (List Text)
      → (items strategies : Async (List (Text × Text))) → Bool
      → Authorising V
      → Authorising V
  unfolding fetch_data
  visible_changed selected items strategies visible d =
      if visible
      then fetch_data selected items strategies (record d { visible = true })
      else record d { visible = false; values = none }

  -- `onOk`, once the page's handler has ended with a value that counts as true or not.
  unfoldable pub authorise_ok : Async Bool → Authorising V → Authorising V
  authorise_ok ok = then_with ok (λ done d. if done then record d { values = none } else d)

  -- `onCancel`, before the page's handler
  unfoldable pub authorise_cancel : Authorising V → Authorising V
  authorise_cancel d = record d { values = none }

  unfoldable pub choosables : Authorising V → List Choosable
  unfolding options_of
  choosables d = options_of d.selected d.items

abbrev authorising_items : Item → List (Text × Text) → List Item
authorising_items first strategies = must first ∷ plain "strategyId" "授权策略" (select strategies) ∷ []

unfoldable pub user_bind_items : (users strategies : List (Text × Text)) → List Item
user_bind_items users = authorising_items (plain "userIds" "用户" (multiple users))

unfoldable pub user_group_bind_items : (user_groups strategies : List (Text × Text)) → List Item
user_group_bind_items user_groups =
    authorising_items (plain "userGroupIds" "用户组" (multiple user_groups))

unfoldable pub user_authorised_items : (assets strategies : List (Text × Text)) → List Item
user_authorised_items assets = authorising_items (plain "assetIds" "资产" (multiple assets))

abbrev label_or_empty : Option Text → Text
label_or_empty none = []
label_or_empty (some label) = label

-- Which options the text that was typed into a select leaves.
unfoldable pub filter_option : (to_lower_case : Text → Text) → Text → Option Text → Bool
unfolding includes
filter_option to_lower_case input label =
    includes (to_lower_case (label_or_empty label)) (to_lower_case input)
