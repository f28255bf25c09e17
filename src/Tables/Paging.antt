-- ===== src/Tables/Paging.antt =====
-- What the `request` functions of the tables share (web/src/components/asset/Credential.js and the
-- other pages): the parameters of a query, and what the table makes of the answer.
use next_terminal.Base.{ℕ, Bool, true, Option, none, some, List, [], ◌∷◌, ◌++◌}
use next_terminal.Base.Text.{Text, codes, decimal, join}
use next_terminal.Request.Api.{Async, returns, throws, waits}

-- The parameters that the table hands over: the page, and the fields of the search form.
pub record Params : Type 0 where
  pub current : ℕ
  pub page_size : ℕ
  pub search : Text → Option Text
  pub tags : Option (List Text)

-- The columns that are sorted by, with "ascend" or "descend", as `Object.keys` orders them.
abbrev pub Sort : Type 0
Sort = List (Text × Text)

-- An undefined parameter is `none`.
abbrev pub Query : Type 0
Query = List (Text × Option Text)

-- The first column and its order, or empty texts.
unfoldable pub first_sort : Sort → Text × Text
first_sort [] = ([], [])
first_sort (s ∷ sort) = s

abbrev pub page_of : Params → Query
page_of params =
    (codes "pageIndex", some (decimal params.current))
    ∷ (codes "pageSize", some (decimal params.page_size))
    ∷ []

abbrev pub found : Params → Text → Text × Option Text
found params name = (name, params.search name)

abbrev pub sorted : Sort → Query
sorted sort =
    let (field, order) = first_sort sort in
    (codes "field", some field) ∷ (codes "order", some order) ∷ []

-- The page, the fields of the search, the sort.
abbrev pub queried : Params → Query → Sort → Query
queried params fields sort = page_of params ++ (fields ++ sorted sort)

abbrev pub comma : ℕ
comma = b','

-- `params.tags?.join(',')`
abbrev pub tags_of : Params → Text × Option Text
tags_of params =
    (codes "tags", elim (params.tags) [ none ↦ none | some tags ↦ some (join comma tags) ])

-- `data` of an answer: both fields are undefined on an error.
pub record Paging {ℓ} (I : Type ℓ) : Type ℓ where
  pub items : Option (List I)
  pub total : Option ℕ

abbrev pub no_paging {ℓ} : {I : Type ℓ} → Paging I
no_paging = record { items = none; total = none }

-- What the function returns to the table.
pub record Shown {ℓ} (I : Type ℓ) : Type ℓ where
  pub rows : Option (List I)
  pub success : Bool
  pub total : Option ℕ

abbrev pub shown {ℓ} : {I : Type ℓ} → Paging I → Shown I
shown result = record { rows = result.items; success = true; total = result.total }

-- A function that goes on with what an async call returns.
abbrev pub after {ℓ κ} : {R : Type ℓ} {S : Type κ} → Async R → (R → S) → Async S
after (returns r) f = returns (f r)
after (throws e) f = throws e
after waits f = waits
